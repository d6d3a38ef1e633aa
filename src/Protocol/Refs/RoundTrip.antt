-- ===== src/Protocol/Refs/RoundTrip.antt =====
-- A reference that is taken and given back leaves the list as it was.
use motorola_external_greybu.Prelude.{
  ℕ, ◌+◌, ◌<◌, ◌≡◌, ◌≢◌, inl, inr, refl, ap, Bool, true, some, List, [], ◌∷◌, ◌++◌, arith, ◌∙◌,
}
use mathlib.Core.List.{append_assoc}
use motorola_external_greybu.Protocol.{
  Protocol, place_major, place, find, update, bump, unbump, get_found, get, put, Registry,
  module_get, module_put,
}
use motorola_external_greybu.Protocol.Order.{Place-cases}
use motorola_external_greybu.Protocol.Lookup.{find_sound}

place-bump :
    (p : Protocol) (id major minor : ℕ) → place (bump p) id major minor ≡ place p id major minor
unfolding bump place place_major
place-bump p id major minor = ground arith

find-bump :
    (ps : List Protocol) (id major minor : ℕ) {p : Protocol}
    → find ps id major minor ≡ some p
    → find (update ps id major minor bump) id major minor ≡ some (bump p)
unfolding find update
find-bump [] id major minor h = absurd (ground arith)
find-bump (q ∷ qs) id major minor {p} h = elim (Place-cases (place q id major minor)) [
  | inl e ↦ rw (e, update, find, e) (find-bump qs id major minor (rw (e, find) at h))
  | inr (inl e) ↦ absurd (ground arith)
  | inr (inr e) ↦ let same : q ≡ p = ground arith in rw (e, update, find, place-bump q, e, same)
]

unbump-bump : (p : Protocol) → p.count < 255 → unbump (bump p) ≡ p
unfolding unbump bump
unbump-bump p h = ground arith

update-bump :
    (ps : List Protocol) (id major minor : ℕ) {p : Protocol}
    → find ps id major minor ≡ some p
    → p.count < 255
    → update (update ps id major minor bump) id major minor unbump ≡ ps
unfolding find update
update-bump [] id major minor h b = refl
update-bump (q ∷ qs) id major minor {p} h b = elim (Place-cases (place q id major minor)) [
  | inl e ↦ rw (e, update, e) (ap (◌∷◌ q) (update-bump qs id major minor (rw (e, find) at h) b))
  | inr (inl e) ↦ absurd (ground arith)
  | inr (inr e) ↦
      let same : q ≡ p = ground arith in
      rw (e, update, place-bump q, e) (ap (λ x. x ∷ qs) (unbump-bump q (ground arith)))
]

abbrev Taken : Registry → Protocol → Registry
Taken r p = record {
  protocols = update r.protocols p.id p.major p.minor bump;
  calls = r.calls ++ (module_get p.owner ∷ []);
}

get-some :
    (alive : ℕ → Bool) (r : Registry) (id major minor : ℕ) {p : Protocol}
    → find r.protocols id major minor ≡ some p
    → alive p.owner ≡ true
    → get alive r id major minor ≡ (Taken r p, some (bump p))
unfolding get get_found
get-some alive r id major minor {p} h a = rw (h, get_found, a)

bump-eq : (p : Protocol) → p.count < 255 → bump p ≡ record p { count = p.count + 1 }
unfolding bump
bump-eq p h = ground arith

find_self :
    (ps : List Protocol) (id major minor : ℕ) {p : Protocol}
    → find ps id major minor ≡ some p
    → find ps p.id p.major p.minor ≡ some p
find_self ps id major minor h =
    let (_, i, j, k) = find_sound ps id major minor h in simp (i, j, k) h

put-some :
    (r : Registry) (p q : Protocol)
    → find r.protocols p.id p.major p.minor ≡ some q
    → q.count ≢ 0
    → put r p ≡ record {
      protocols = update r.protocols p.id p.major p.minor unbump;
      calls = r.calls ++ (module_put q.owner ∷ []);
    }
unfolding put
put-some r p q h n = ground arith

put-Taken :
    (r : Registry) (p : Protocol)
    → find r.protocols p.id p.major p.minor ≡ some p
    → p.count < 255
    → put (Taken r p) (record p { count = p.count + 1 }) ≡ record {
      protocols = r.protocols;
      calls = r.calls ++ (module_get p.owner ∷ module_put p.owner ∷ []);
    }
put-Taken r p h b =
    put-some (Taken r p) (record p { count = p.count + 1 }) (record p { count = p.count + 1 })
      (find-bump r.protocols p.id p.major p.minor h ∙ ap some (bump-eq p b)) (omega arith)
    ∙ rw (
      update-bump r.protocols p.id p.major p.minor h b,
      append_assoc r.calls (module_get p.owner ∷ []) (module_put p.owner ∷ []),
    )

-- `get` of a registered protocol whose module is alive and whose count is below its limit returns it with
-- its count one higher, and `put` of what it returned then brings back the list as it was, with one
-- reference to the module taken and given back.
pub put-get :
    (alive : ℕ → Bool) (r : Registry) (id major minor : ℕ) {p : Protocol}
    → find r.protocols id major minor ≡ some p
    → alive p.owner ≡ true
    → p.count < 255
    → let p' = record p { count = p.count + 1 } in
      ((get alive r id major minor).1 ≡ some p')
      × ((put (get alive r id major minor).0 p') ≡ record {
        protocols = r.protocols;
        calls = r.calls ++ (module_get p.owner ∷ module_put p.owner ∷ []);
      })
put-get alive r id major minor {p} h a b =
    rw (get-some alive r id major minor h a)
      (ap some (bump-eq p b), put-Taken r p (find_self r.protocols id major minor h) b)
