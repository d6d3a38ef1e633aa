-- ===== src/Protocol/Refs.antt =====
-- The references on protocols and on the modules that implement them.
pub mod Invariant
pub mod RoundTrip
use motorola_external_greybu.Prelude.{
  ℕ, suc, ◌+◌, ◌-◌, ◌≤◌, ◌<◌, ◌≡◌, ◌≢◌, ◌⊎◌, ◌↔◌, inl, inr, refl, ap, Bool, true, false, Option,
  none, some, List, [], ◌∷◌, ◌++◌, arith, All, In, All-In, Option-cases, Bool-cases, ◌==◌,
  if◌then◌else◌,
}
use motorola_external_greybu.Prelude.Errno.{Errno, success, eexist}
use motorola_external_greybu.Protocol.{
  Protocol, Place, passed, ended, here, place_major, place, find, find_latest, insert, register,
  deregister, delete, update, bump, unbump, get_found, get, get_latest, put, Registry, ModuleCall,
  module_get, module_put, u8_max,
}
use motorola_external_greybu.Protocol.Order.{
  Before, IsSorted, Place-cases, Registered, register-Registered,
}
use motorola_external_greybu.Protocol.Lookup.{find_iff}
use mathlib.Core.Option

-- The references taken on a module, and those given back.
pub gets : ℕ → List ModuleCall → ℕ
gets m [] = 0
gets m (module_get k ∷ cs) = (if k == m then 1 else 0) + gets m cs
gets m (module_put k ∷ cs) = gets m cs

pub puts : ℕ → List ModuleCall → ℕ
puts m [] = 0
puts m (module_put k ∷ cs) = (if k == m then 1 else 0) + puts m cs
puts m (module_get k ∷ cs) = puts m cs

-- The sum of the counts of the protocols that a module owns.
pub total : ℕ → List Protocol → ℕ
total m [] = 0
total m (p ∷ ps) = (if p.owner == m then p.count else 0) + total m ps

pub gets-get :
    (m k : ℕ) (cs : List ModuleCall)
    → gets m (cs ++ (module_get k ∷ [])) ≡ (if k == m then 1 else 0) + gets m cs
unfolding gets
gets-get m k [] = refl
gets-get m k (module_get j ∷ cs) = omega (arith, gets-get m k cs)
gets-get m k (module_put j ∷ cs) = gets-get m k cs

pub gets-put : (m k : ℕ) (cs : List ModuleCall) → gets m (cs ++ (module_put k ∷ [])) ≡ gets m cs
unfolding gets
gets-put m k [] = refl
gets-put m k (module_get j ∷ cs) = omega (arith, gets-put m k cs)
gets-put m k (module_put j ∷ cs) = gets-put m k cs

pub puts-put :
    (m k : ℕ) (cs : List ModuleCall)
    → puts m (cs ++ (module_put k ∷ [])) ≡ (if k == m then 1 else 0) + puts m cs
unfolding puts
puts-put m k [] = refl
puts-put m k (module_put j ∷ cs) = omega (arith, puts-put m k cs)
puts-put m k (module_get j ∷ cs) = puts-put m k cs

pub puts-get : (m k : ℕ) (cs : List ModuleCall) → puts m (cs ++ (module_get k ∷ [])) ≡ puts m cs
unfolding puts
puts-get m k [] = refl
puts-get m k (module_put j ∷ cs) = omega (arith, puts-get m k cs)
puts-get m k (module_get j ∷ cs) = puts-get m k cs

-- A change that keeps what the list is ordered by.
abbrev pub Keeps : (Protocol → Protocol) → Type 0
Keeps f =
    (p : Protocol)
    → ((f p).id ≡ p.id)
      × ((f p).major ≡ p.major)
      × ((f p).minor ≡ p.minor)
      × ((f p).owner ≡ p.owner)

pub bump-Keeps : Keeps bump
unfolding bump
bump-Keeps p = ground arith

pub unbump-Keeps : Keeps unbump
unfolding unbump
unbump-Keeps p = (refl, refl, refl, refl)

All-Before-update :
    (f : Protocol → Protocol)
    → Keeps f
    → (x : Protocol) (ps : List Protocol) (id major minor : ℕ) → All (Before x) ps
    → All (Before x) (update ps id major minor f)
unfolding update
All-Before-update f k x [] id major minor a = tt
All-Before-update f k x (p ∷ ps) id major minor a = elim (Place-cases (place p id major minor)) [
  | inl e ↦ rw (e, update) (a.0, All-Before-update f k x ps id major minor a.1)
  | inr (inl e) ↦ rw (e, update) a
  | inr (inr e) ↦ rw (e, update) (ground (arith, k p, a.0), a.1)
]

pub update-IsSorted :
    (f : Protocol → Protocol)
    → Keeps f
    → (ps : List Protocol) (id major minor : ℕ) → IsSorted ps
    → IsSorted (update ps id major minor f)
unfolding update
update-IsSorted f k [] id major minor s = tt
update-IsSorted f k (p ∷ ps) id major minor s = elim (Place-cases (place p id major minor)) [
  | inl e ↦
      rw (e, update)
        (All-Before-update f k p ps id major minor s.0, update-IsSorted f k ps id major minor s.1)
  | inr (inl e) ↦ rw (e, update) s
  | inr (inr e) ↦ rw (e, update) (before-f p ps s.0, s.1)
]
  where
    before-f : (p : Protocol) (ps : List Protocol) → All (Before p) ps → All (Before (f p)) ps
    before-f p [] a = tt
    before-f p (q ∷ qs) a = (ground (arith, k p, a.0), before-f p qs a.1)

All-delete :
    (P : Protocol → Type 0) (ps : List Protocol) (id major minor : ℕ)
    → All P ps
    → All P (delete ps id major minor)
unfolding delete
All-delete P [] id major minor a = tt
All-delete P (p ∷ ps) id major minor a = elim (Place-cases (place p id major minor)) [
  | inl e ↦ rw (e, delete) (a.0, All-delete P ps id major minor a.1)
  | inr (inl e) ↦ rw (e, delete) a
  | inr (inr e) ↦ rw (e, delete) a.1
]

pub delete-IsSorted :
    (ps : List Protocol) (id major minor : ℕ) → IsSorted ps → IsSorted (delete ps id major minor)
unfolding delete
delete-IsSorted [] id major minor s = tt
delete-IsSorted (p ∷ ps) id major minor s = elim (Place-cases (place p id major minor)) [
  | inl e ↦
      rw (e, delete)
        (All-delete (Before p) ps id major minor s.0, delete-IsSorted ps id major minor s.1)
  | inr (inl e) ↦ rw (e, delete) s
  | inr (inr e) ↦ rw (e, delete) s.1
]

-- What a change of the entry found does to a module's sum.
pub total-update :
    (m : ℕ) (f : Protocol → Protocol)
    → Keeps f
    → (ps : List Protocol) (id major minor : ℕ) {p : Protocol} → find ps id major minor ≡ some p
    → total m (update ps id major minor f) + (if p.owner == m then p.count else 0)
      ≡ total m ps + (if p.owner == m then (f p).count else 0)
unfolding total update find
total-update m f k [] id major minor h = absurd (ground arith)
total-update m f k (q ∷ qs) id major minor {p} h = elim (Place-cases (place q id major minor)) [
  | inl e ↦
      rw (e, update, total)
        (ground (arith, total-update m f k qs id major minor (rw (e, find) at h)))
  | inr (inl e) ↦ absurd (ground arith)
  | inr (inr e) ↦
      let same : q ≡ p = ground arith in rw (e, update, total, ← same) (ground (arith, k q))
]

pub total-delete :
    (m : ℕ) (ps : List Protocol) (id major minor : ℕ)
    → total m (delete ps id major minor) ≤ total m ps
unfolding total delete
total-delete m [] id major minor = omega arith
total-delete m (q ∷ qs) id major minor = elim (Place-cases (place q id major minor)) [
  | inl e ↦ rw (e, delete, total) (omega (arith, total-delete m qs id major minor))
  | inr (inl e) ↦ rw (e, delete, total) (omega arith)
  | inr (inr e) ↦ rw (e, delete, total) (omega arith)
]
