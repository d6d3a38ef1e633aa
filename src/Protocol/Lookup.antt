-- ===== src/Protocol/Lookup.antt =====
-- What the two searches of protocol.c find in a sorted list.
use motorola_external_greybu.Prelude.{
  ℕ, ◌≤◌, ◌<◌, ◌≡◌, ◌≢◌, ◌⊎◌, ◌↔◌, inl, inr, refl, true, false, Option, none, some, List, [], ◌∷◌,
  arith, All, In, All-In,
}
use motorola_external_greybu.Protocol.{
  Protocol, passed, ended, here, place_major, place, place_latest, find, find_latest,
}
use motorola_external_greybu.Protocol.Order.{Before, IsSorted, Place-cases, place_major-here}

pub place_self : (p : Protocol) → place p p.id p.major p.minor ≡ here
unfolding place place_major
place_self p = ground arith

pub place-Before : (q p : Protocol) → Before q p → place q p.id p.major p.minor ≡ passed
unfolding place place_major
place-Before q p h = ground arith

pub place-here :
    (p : Protocol) (id major minor : ℕ)
    → place p id major minor ≡ here
    → (p.id ≡ id) × (p.major ≡ major) × (p.minor ≡ minor)
unfolding place place_major
place-here p id major minor h = ground arith

pub find_sound :
    (ps : List Protocol) (id major minor : ℕ) {p : Protocol}
    → find ps id major minor ≡ some p
    → In p ps × (p.id ≡ id) × (p.major ≡ major) × (p.minor ≡ minor)
unfolding find
find_sound [] id major minor h = absurd (ground arith)
find_sound (q ∷ qs) id major minor {p} h = elim (Place-cases (place q id major minor)) [
  | inl e ↦ let k = find_sound qs id major minor (rw (e, find) at h) in (inr k.0, k.1, k.2, k.3)
  | inr (inl e) ↦ absurd (ground arith)
  | inr (inr e) ↦
      let same : q ≡ p = ground arith in
      rw (← same) (
        inl refl,
        (place-here q id major minor e).0,
        (place-here q id major minor e).1,
        (place-here q id major minor e).2,
      )
]

find_complete :
    (ps : List Protocol) (p : Protocol)
    → IsSorted ps
    → In p ps
    → find ps p.id p.major p.minor ≡ some p
unfolding find
find_complete [] p s m = absurd m
find_complete (q ∷ qs) p s (inl e) = rw (e, find, place_self q)
find_complete (q ∷ qs) p s (inr m) =
    rw (find, place-Before q p (All-In (Before q) p qs s.0 m)) (find_complete qs p s.1 m)

-- In a sorted list, `find` returns an entry exactly if it stands there under that id and version.
pub find_iff :
    (ps : List Protocol) (id major minor : ℕ) (p : Protocol)
    → IsSorted ps
    → (find ps id major minor ≡ some p)
      ↔ (In p ps × (p.id ≡ id) × (p.major ≡ major) × (p.minor ≡ minor))
find_iff ps id major minor p s = (
  (λ h. find_sound ps id major minor h),
  (λ k. rw (← k.1, ← k.2, ← k.3) (find_complete ps p s k.0)),
)

-- The newest entry of an id, or that there is none.
abbrev pub Newest : List Protocol → ℕ → Option Protocol → Type 0
Newest ps id none = All (λ q. q.id ≢ id) ps
Newest ps id (some p) = In p ps × (p.id ≡ id) × All (λ q. q.id ≡ id → q.major ≤ p.major) ps

All-Before-ne :
    (q : Protocol) (id : ℕ) (ps : List Protocol)
    → id < q.id
    → All (Before q) ps
    → All (λ r. r.id ≢ id) ps
All-Before-ne q id [] h a = tt
All-Before-ne q id (p ∷ ps) h a = ((λ e. absurd (ground (arith, a.0))), All-Before-ne q id ps h a.1)

All-Before-le :
    (q : Protocol) (id : ℕ) (ps : List Protocol)
    → q.id ≡ id
    → All (Before q) ps
    → All (λ r. r.id ≡ id → r.major ≤ q.major) ps
All-Before-le q id [] h a = tt
All-Before-le q id (p ∷ ps) h a = ((λ e. ground (arith, a.0)), All-Before-le q id ps h a.1)

Newest-passed :
    (q : Protocol) (ps : List Protocol) (id : ℕ) (o : Option Protocol)
    → q.id ≢ id
    → Newest ps id o
    → Newest (q ∷ ps) id o
Newest-passed q ps id none n h = (n, h)
Newest-passed q ps id (some p) n h = (inr h.0, h.1, ((λ e. absurd (n e)), h.2))

latest-cases :
    (q : Protocol) (id major : ℕ)
    → ((place_latest q id major false ≡ passed) × (q.id < id))
      ⊎ (((place_latest q id major false ≡ ended) × (id < q.id))
          ⊎ ((place_latest q id major false ≡ here) × (q.id ≡ id)))
unfolding place_latest
latest-cases q id major = ground arith

-- Without a major version to match, `find_latest` on a sorted list returns the entry with the highest
-- major version among those of the id, and nothing only if the id has no entry.
pub find_latest-Newest :
    (ps : List Protocol) (id major : ℕ) → IsSorted ps → Newest ps id (find_latest ps id major false)
unfolding find_latest
find_latest-Newest [] id major s = tt
find_latest-Newest (q ∷ qs) id major s = elim (latest-cases q id major) [
  | inl (e, h) ↦
      rw (e, find_latest)
        (Newest-passed q qs id _ (omega arith) (find_latest-Newest qs id major s.1))
  | inr (inl (e, h)) ↦ rw (e, find_latest) ((omega arith), All-Before-ne q id qs h s.0)
  | inr (inr (e, h)) ↦
      rw (e, find_latest) (inl refl, h, ((λ k. omega arith), All-Before-le q id qs h s.0))
]

find_latest_sound :
    (ps : List Protocol) (id major : ℕ) {p : Protocol}
    → find_latest ps id major true ≡ some p
    → In p ps × (p.id ≡ id) × (p.major ≡ major)
unfolding find_latest place_latest
find_latest_sound [] id major h = absurd (ground arith)
find_latest_sound (q ∷ qs) id major {p} h = elim (Place-cases (place_major q id major)) [
  | inl e ↦
      let k = find_latest_sound qs id major (rw (e, find_latest, place_latest) at h) in
      (inr k.0, k.1, k.2)
  | inr (inl e) ↦ absurd (ground arith)
  | inr (inr e) ↦
      let same : q ≡ p = ground arith in
      rw (← same) (inl refl, (place_major-here q id major e).0, (place_major-here q id major e).1)
]

place_major_self : (p : Protocol) → place_major p p.id p.major ≡ here
unfolding place_major
place_major_self p = ground arith

place_major-Before : (q p : Protocol) → Before q p → place_major q p.id p.major ≡ passed
unfolding place_major
place_major-Before q p h = ground arith

find_latest_complete :
    (ps : List Protocol) (p : Protocol)
    → IsSorted ps
    → In p ps
    → find_latest ps p.id p.major true ≡ some p
unfolding find_latest place_latest
find_latest_complete [] p s m = absurd m
find_latest_complete (q ∷ qs) p s (inl e) = rw (e, find_latest, place_latest, place_major_self q)
find_latest_complete (q ∷ qs) p s (inr m) =
    rw (find_latest, place_latest, place_major-Before q p (All-In (Before q) p qs s.0 m))
      (find_latest_complete qs p s.1 m)

-- With a major version to match, `find_latest` on a sorted list returns an entry exactly if it stands
-- there under that id and major version.
pub find_latest_iff :
    (ps : List Protocol) (id major : ℕ) (p : Protocol)
    → IsSorted ps
    → (find_latest ps id major true ≡ some p) ↔ (In p ps × (p.id ≡ id) × (p.major ≡ major))
find_latest_iff ps id major p s = (
  (λ h. find_latest_sound ps id major h),
  (λ k. rw (← k.1, ← k.2) (find_latest_complete ps p s k.0)),
)
