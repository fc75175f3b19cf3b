-- ===== src/Collector/Correlation/Idempotent.antt =====
-- Correlating again (`correlateDeploymentsAndMRs`), and the links that are there.
use dora_metrics_app.Base.{
  ◌≡◌, refl, true, false, not, ◌&&◌, ◌||◌, List, [], ◌∷◌, ◌++◌, All, arith, String, none,
}
use dora_metrics_app.Collector.Correlation.{
  Deployment, MergeRequest, Link, has_link, upsert_link, link_of, upsert_all, calls, correlate,
}

has_link-append :
    (links more : List Link) (l : Link)
    → has_link (links ++ more) l ≡ (has_link links l || has_link more l)
has_link-append [] more l = refl
has_link-append (k ∷ links) more l = ground (arith, has_link-append links more l)

has_link_last : (links : List Link) (l : Link) → has_link (links ++ l ∷ []) l ≡ true
has_link_last [] l = ground arith
has_link_last (k ∷ links) l = ground (arith, has_link_last links l)

upsert_link-has : (links : List Link) (l : Link) → has_link (upsert_link links l) l ≡ true
unfolding upsert_link
upsert_link-has links l = ground (arith, has_link_last links l)

upsert_link_keeps :
    (links : List Link) (l k : Link)
    → has_link links k ≡ true
    → has_link (upsert_link links l) k ≡ true
unfolding upsert_link
upsert_link_keeps links l k h = ground (arith, has_link-append links (l ∷ []) k)

upsert_all_keeps :
    (cs : List (Deployment × MergeRequest)) (links : List Link) (k : Link)
    → has_link links k ≡ true
    → has_link (upsert_all cs links) k ≡ true
unfolding upsert_all
upsert_all_keeps [] links k h = h
upsert_all_keeps (c ∷ cs) links k h =
    upsert_all_keeps cs _ k (upsert_link_keeps links (link_of c) k h)

Held : List Link → Deployment × MergeRequest → Type 0
Held links c = has_link links (link_of c) ≡ true

upsert_all-Held :
    (cs : List (Deployment × MergeRequest)) (links : List Link)
    → All (Held (upsert_all cs links)) cs
unfolding upsert_all Held
upsert_all-Held [] links = tt
upsert_all-Held (c ∷ cs) links =
    (upsert_all_keeps cs _ (link_of c) (upsert_link-has links (link_of c)), upsert_all-Held cs _)

Held-upsert_all :
    (cs : List (Deployment × MergeRequest)) (links : List Link)
    → All (Held links) cs
    → upsert_all cs links ≡ links
unfolding upsert_all upsert_link Held
Held-upsert_all [] links h = refl
Held-upsert_all (c ∷ cs) links h = rw h.0 (Held-upsert_all cs links h.1)

-- A correlation keeps every link that was there, and running it again on what it gave changes
-- nothing, whatever the links, deployments and merge requests.
pub correlate_idempotent :
    (mrs : List MergeRequest) (branch : String) (deploys : List Deployment) (links : List Link)
    (k : Link)
    → ((has_link links k && not (has_link (correlate mrs branch deploys links) k)) ≡ false)
      × (correlate mrs branch deploys (correlate mrs branch deploys links)
          ≡ correlate mrs branch deploys links)
unfolding correlate
correlate_idempotent mrs branch deploys links k =
    let cs = calls mrs branch none deploys in
    (
      ground (arith, upsert_all_keeps cs links k),
      Held-upsert_all cs (upsert_all cs links) (upsert_all-Held cs links),
    )
