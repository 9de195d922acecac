-- ===== src/Agent/Render/Clusters.antt =====
-- The names of the clusters that buildBackendClusters returns.
use text.Mathlib.TextEquality.{eq_iff}
use tiproxy_machine_operator.Agent.Render.{
  BackendCluster, RenderError, build_backend_clusters, cluster_less, cluster_name_of,
  collect_clusters, duplicate_cluster_name, invalid_assigned_port, pd_addrs_of, with_cluster,
}
use tiproxy_machine_operator.Api.{ResolvedLinkStatus}
use tiproxy_machine_operator.Prelude.{
  >>=-eq-ok, Bool-cases, List, Result, String, [], ap, arith, err, false, inl, inr, insert_by,
  int_eq, lez, ok, pos, refl, sort_by, string_eq, subst, sym, text_ltb, true, ◌∙◌, ◌∷◌, ◌≡◌,
}
use tiproxy_machine_operator.Prelude.Assoc.{contains}
use tiproxy_machine_operator.Prelude.Sets.{Apart, Apart-sort_by}
use tiproxy_machine_operator.Text.{join, trim_space}

abbrev pub names_of : List BackendCluster → List String
names_of [] = []
names_of (c ∷ cs) = c.name ∷ names_of cs

names_of-insert_by :
    (c : BackendCluster) (cs : List BackendCluster)
    → names_of (insert_by cluster_less c cs) ≡ insert_by text_ltb c.name (names_of cs)
unfolding insert_by
names_of-insert_by c [] = refl
names_of-insert_by c (d ∷ ds) = elim (Bool-cases (text_ltb d.name c.name)) [
  | inl less ↦ rw less (ap (λ ns. d.name ∷ ns) (names_of-insert_by c ds))
  | inr not_less ↦ rw not_less refl
]

names_of-sort_by :
    (cs : List BackendCluster) → names_of (sort_by cluster_less cs) ≡ sort_by text_ltb (names_of cs)
unfolding sort_by
names_of-sort_by [] = refl
names_of-sort_by (c ∷ cs) =
    names_of-insert_by c (sort_by cluster_less cs)
    ∙ ap (insert_by text_ltb c.name) (names_of-sort_by cs)

-- One round of the loop that succeeds.
record Round (names : List String) (l : ResolvedLinkStatus) (ls : List ResolvedLinkStatus)
    (cs : List BackendCluster) : Type 0 where
  pub cluster : BackendCluster
  pub later : List BackendCluster
  pub made : cluster ∷ later ≡ cs
  pub named : cluster.name ≡ cluster_name_of l
  pub fresh : contains names (cluster_name_of l) ≡ false
  pub rest : collect_clusters (cluster_name_of l ∷ names) ls ≡ ok later

ok-err :
    {cs : List BackendCluster} {e : RenderError}
    → Path (Result RenderError (List BackendCluster)) (ok cs) (err e)
    → ⊥
ok-err h = cc

with_cluster-Round :
    (names : List String) (l : ResolvedLinkStatus) (ls : List ResolvedLinkStatus)
    (cs : List BackendCluster)
    → contains names (cluster_name_of l) ≡ false
    → (addrs : List String)
    → with_cluster l addrs (collect_clusters (cluster_name_of l ∷ names) ls) ≡ ok cs
    → Round names l ls cs
unfolding with_cluster
with_cluster-Round names l ls cs fresh [] h = absurd (ok-err (sym h))
with_cluster-Round names l ls cs fresh (addr ∷ addrs) h =
    let (later, rest, made) = >>=-eq-ok (collect_clusters (cluster_name_of l ∷ names) ls) _ h in
    record {
      cluster = record {
        name = cluster_name_of l;
        pd_addrs = join (addr ∷ addrs) ",";
        ns_servers = trim_space l.ns_server_addr;
      };
      later = later;
      made = ground arith;
      named = refl;
      fresh = fresh;
      rest = rest;
    }

collect-Round :
    (names : List String) (l : ResolvedLinkStatus) (ls : List ResolvedLinkStatus)
    (cs : List BackendCluster)
    → collect_clusters names (l ∷ ls) ≡ ok cs
    → Round names l ls cs
unfolding collect_clusters
collect-Round names l ls cs h =
    let name = cluster_name_of l in
    elim (Bool-cases (lez l.port (pos 0))) [
      | inl bad ↦
          absurd
            (ok-err {e = invalid_assigned_port l.namespace l.name l.port} (sym h ∙ rw bad refl))
      | inr good ↦ elim (Bool-cases (contains names name)) [
        | inl twice ↦
            absurd (ok-err {e = duplicate_cluster_name name} (sym h ∙ rw (good, twice) refl))
        | inr fresh ↦
            with_cluster-Round names l ls cs fresh (pd_addrs_of l.pd_addresses)
              (sym (rw (good, fresh) refl) ∙ h)
      ]
    ]

collect-Apart :
    (names : List String) (ls : List ResolvedLinkStatus) (cs : List BackendCluster)
    → collect_clusters names ls ≡ ok cs
    → Apart (names_of cs)
      × ((n : String) → contains names n ≡ true → contains (names_of cs) n ≡ false)
unfolding collect_clusters contains
collect-Apart names [] cs h =
    let none_made : [] ≡ cs = ground arith in
    subst
      (λ c.
        Apart (names_of c)
        × ((n : String) → contains names n ≡ true → contains (names_of c) n ≡ false))
      none_made (tt, λ n there. refl)
collect-Apart names (l ∷ ls) cs h =
    let r = collect-Round names l ls cs h in
    let (apart, away) = collect-Apart (cluster_name_of l ∷ names) ls r.later r.rest in
    subst
      (λ c.
        Apart (names_of c)
        × ((n : String) → contains names n ≡ true → contains (names_of c) n ≡ false))
      r.made
      (
        (
          rw r.named (
              away (cluster_name_of l)
                (ground (arith, eq_iff (cluster_name_of l) (cluster_name_of l)))),
          apart,
        ),
        λ n there. ground (arith, away n, r.named, r.fresh, there, eq_iff r.cluster.name n),
      )

-- buildBackendClusters that succeeds returns no two clusters of one name.
pub build_backend_clusters-Apart :
    (links : List ResolvedLinkStatus) (cs : List BackendCluster)
    → build_backend_clusters links ≡ ok cs
    → Apart (names_of cs)
unfolding build_backend_clusters
build_backend_clusters-Apart links cs h =
    let (unsorted, first, rest) = >>=-eq-ok (collect_clusters [] links) _ h in
    let sorted : sort_by cluster_less unsorted ≡ cs = ground arith in
    subst (λ c. Apart (names_of c)) sorted
      (rw (names_of-sort_by unsorted)
        (Apart-sort_by text_ltb (names_of unsorted) (collect-Apart [] links unsorted first).0))
