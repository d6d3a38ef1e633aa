-- ===== src/Protocol/Order.antt =====
-- The order of the protocol list: by id from low to high, then by major version from high to low.
use motorola_external_greybu.Prelude.{
  ℕ, ◌<◌, ◌≡◌, ◌⊎◌, inl, inr, refl, Option, none, some, List, [], ◌∷◌, arith, All,
}
use motorola_external_greybu.Prelude.Errno.{Errno, success, eexist}
use motorola_external_greybu.Protocol.{
  Protocol, Registry, register, Place, passed, ended, here, place_major, insert,
}
use mathlib.Core.Option
use mathlib.Core.List.{Perm}
use mathlib.Core.List.Perm

-- `p` stands before `q` in the list.
abbrev pub Before : Protocol → Protocol → Type 0
Before p q = (p.id < q.id) ⊎ ((p.id ≡ q.id) × (q.major < p.major))

abbrev pub IsSorted : List Protocol → Type 0
IsSorted [] = Unit
IsSorted (p ∷ ps) = All (Before p) ps × IsSorted ps

-- The outcome of the comparison decides how two entries stand.
pub place_major-passed :
    (p : Protocol) (id major : ℕ)
    → place_major p id major ≡ passed
    → (p.id < id) ⊎ ((p.id ≡ id) × (major < p.major))
unfolding place_major
place_major-passed p id major h = ground arith

pub place_major-ended :
    (p : Protocol) (id major : ℕ)
    → place_major p id major ≡ ended
    → (id < p.id) ⊎ ((p.id ≡ id) × (p.major < major))
unfolding place_major
place_major-ended p id major h = ground arith

pub place_major-here :
    (p : Protocol) (id major : ℕ) → place_major p id major ≡ here → (p.id ≡ id) × (p.major ≡ major)
unfolding place_major
place_major-here p id major h = ground arith

pub Place-cases : (x : Place) → (x ≡ passed) ⊎ ((x ≡ ended) ⊎ (x ≡ here))
Place-cases passed = inl refl
Place-cases ended = inr (inl refl)
Place-cases here = inr (inr refl)

pub Before-trans : (p q r : Protocol) → Before p q → Before q r → Before p r
Before-trans p q r h k = ground arith

pub All-trans :
    (p q : Protocol) (rs : List Protocol) → Before p q → All (Before q) rs → All (Before p) rs
All-trans p q [] h a = tt
All-trans p q (r ∷ rs) h a = (Before-trans p q r h a.0, All-trans p q rs h a.1)

abbrev OnSome : {A : Type 0} → (A → Type 0) → Option A → Type 0
OnSome P none = Unit
OnSome P (some a) = P a

OnSome-map :
    {A : Type 0} (P Q : A → Type 0) (f : A → A) (o : Option A)
    → ((a : A) → P a → Q (f a))
    → OnSome P o
    → OnSome Q (Option.map f o)
OnSome-map P Q f none k h = tt
OnSome-map P Q f (some a) k h = k a h

insert-All :
    (x p : Protocol) (ps : List Protocol)
    → Before x p
    → All (Before x) ps
    → OnSome (All (Before x)) (insert p ps)
unfolding insert
insert-All x p [] h a = (h, tt)
insert-All x p (q ∷ qs) h a = elim (Place-cases (place_major q p.id p.major)) [
  | inl e ↦
      rw (e, insert)
        (OnSome-map (All (Before x)) _ (◌∷◌ q) (insert p qs) (λ l k. (a.0, k))
          (insert-All x p qs h a.1))
  | inr (inl e) ↦ rw (e, insert) (h, a)
  | inr (inr e) ↦ rw (e, insert) tt
]

both :
    {A : Type 0} (P Q : A → Type 0) (o : Option A)
    → OnSome P o
    → OnSome Q o
    → OnSome (λ a. P a × Q a) o
both P Q none h k = tt
both P Q (some a) h k = (h, k)

insert-IsSorted : (p : Protocol) (ps : List Protocol) → IsSorted ps → OnSome IsSorted (insert p ps)
unfolding insert
insert-IsSorted p [] s = (tt, tt)
insert-IsSorted p (q ∷ qs) s = elim (Place-cases (place_major q p.id p.major)) [
  | inl e ↦
      rw (e, insert)
        (OnSome-map (λ l. All (Before q) l × IsSorted l) _ (◌∷◌ q) (insert p qs) (λ l k. k)
          (both (All (Before q)) IsSorted (insert p qs)
            (insert-All q p qs (ground (arith, place_major-passed q p.id p.major e)) s.0)
            (insert-IsSorted p qs s.1)))
  | inr (inl e) ↦
      let b : Before p q = ground (arith, place_major-ended q p.id p.major e) in
      rw (e, insert) ((b, All-trans p q qs b s.0), s)
  | inr (inr e) ↦ rw (e, insert) tt
]

-- A protocol with this id and major version is in the list.
abbrev pub Has : List Protocol → ℕ → ℕ → Type 0
Has [] id major = ⊥
Has (q ∷ qs) id major = ((q.id ≡ id) × (q.major ≡ major)) ⊎ Has qs id major

-- An entry behind which the version stands rules it out.
Before-not-Has :
    (q : Protocol) (id major : ℕ) (qs : List Protocol)
    → ((id < q.id) ⊎ ((q.id ≡ id) × (q.major < major)) ⊎ ((q.id ≡ id) × (q.major ≡ major)))
    → All (Before q) qs
    → ¬ Has qs id major
Before-not-Has q id major [] h a = λ k. k
Before-not-Has q id major (x ∷ qs) h a = λ k. elim k [
  | inl e ↦ absurd (ground (arith, a.0))
  | inr m ↦ Before-not-Has q id major qs h a.1 m
]

-- The outcome of the insertion into a sorted list.
Inserted : Protocol → List Protocol → Option (List Protocol) → Type 0
Inserted p ps none = Has ps p.id p.major
Inserted p ps (some qs) = (¬ Has ps p.id p.major) × Perm qs (p ∷ ps)

Inserted-passed :
    (p q : Protocol) (ps : List Protocol) (o : Option (List Protocol))
    → ((q.id < p.id) ⊎ ((q.id ≡ p.id) × (p.major < q.major)))
    → Inserted p ps o
    → Inserted p (q ∷ ps) (Option.map (◌∷◌ q) o)
unfolding Inserted
Inserted-passed p q ps none b h = inr h
Inserted-passed p q ps (some qs) b h = (
  (λ k. elim k [ inl e ↦ absurd (ground arith) | inr m ↦ h.0 m ]),
  Perm.trans (Perm.cons q h.1) (Perm.swap p q ps),
)

insert-Inserted : (p : Protocol) (ps : List Protocol) → IsSorted ps → Inserted p ps (insert p ps)
unfolding insert Inserted
insert-Inserted p [] s = ((λ k. k), Perm.refl (p ∷ []))
insert-Inserted p (q ∷ qs) s = elim (Place-cases (place_major q p.id p.major)) [
  | inl e ↦
      rw (e, insert)
        (Inserted-passed p q qs (insert p qs) (place_major-passed q p.id p.major e)
          (insert-Inserted p qs s.1))
  | inr (inl e) ↦
      let b : (p.id < q.id) ⊎ ((q.id ≡ p.id) × (q.major < p.major)) =
        place_major-ended q p.id p.major e in
      rw (e, insert)
        (
          (λ k. elim k [
            | inl e ↦ absurd (ground arith)
            | inr m ↦ Before-not-Has q p.id p.major qs (ground arith) s.0 m
          ]),
          Perm.refl (p ∷ q ∷ qs),
        )
  | inr (inr e) ↦ rw (e, insert) (inl (place_major-here q p.id p.major e))
]

-- What `register` does, by what was registered before: the two cases of its contract.
abbrev pub Registered : Registry → Protocol → Registry × Errno → Type 0
Registered r p (r', e) =
    (Has r.protocols p.id p.major × (e ≡ eexist) × (r' ≡ r))
    ⊎ ((¬ Has r.protocols p.id p.major)
        × (e ≡ success)
        × IsSorted r'.protocols
        × Perm r'.protocols (p ∷ r.protocols)
        × (r'.calls ≡ r.calls))

register-cases :
    (r : Registry) (p : Protocol) (owner : ℕ) (o : Option (List Protocol))
    → insert (record p { owner = owner }) r.protocols ≡ o
    → OnSome IsSorted o
    → Inserted (record p { owner = owner }) r.protocols o
    → Registered r (record p { owner = owner }) (register r p owner)
unfolding register Inserted
register-cases r p owner none e s h = rw (e, register) (inl (h, refl, refl))
register-cases r p owner (some qs) e s h = rw (e, register) (inr (h.0, refl, s, h.1, refl))

-- On a sorted list, `register` answers `eexist` and changes nothing exactly if a protocol with the same
-- id and major version is there already, whatever its minor version; otherwise it succeeds, and the new
-- list is sorted and holds the old entries and the new one, with its owner set.
pub register-Registered :
    (r : Registry) (p : Protocol) (owner : ℕ)
    → IsSorted r.protocols
    → Registered r (record p { owner = owner }) (register r p owner)
register-Registered r p owner s =
    register-cases r p owner _ refl (insert-IsSorted (record p { owner = owner }) r.protocols s)
      (insert-Inserted (record p { owner = owner }) r.protocols s)
