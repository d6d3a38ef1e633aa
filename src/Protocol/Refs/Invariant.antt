-- ===== src/Protocol/Refs/Invariant.antt =====
-- What every sequence of calls of protocol.c keeps.
use motorola_external_greybu.Prelude.{
  ℕ, ◌+◌, ◌≤◌, ◌≡◌, inl, inr, refl, Bool, true, false, Option, none, some, List, [], ◌∷◌, arith, In,
  Option-cases, Bool-cases, ◌==◌, if◌then◌else◌,
}
use motorola_external_greybu.Protocol.{
  Protocol, place_major, find, find_latest, insert, register, deregister, delete, bump, unbump,
  get_found, get, get_latest, put, Registry,
}
use motorola_external_greybu.Protocol.Order.{IsSorted, Place-cases, Registered, register-Registered}
use motorola_external_greybu.Protocol.Lookup.{find_iff, find_latest_iff, find_latest-Newest}
use motorola_external_greybu.Protocol.Refs.{
  gets, puts, total, gets-get, gets-put, puts-get, puts-put, bump-Keeps, unbump-Keeps,
  update-IsSorted, delete-IsSorted, total-update, total-delete,
}

-- One call by some driver. A protocol is registered with the count of a static structure, 0.
pub data Step (alive : ℕ → Bool) (r : Registry) : Registry → Type 0 where
  registers : (p : Protocol) (owner : ℕ) → p.count ≡ 0 → Step alive r (register r p owner).0
  deregisters : (p : Protocol) → Step alive r (deregister r p)
  gets_exact : (id major minor : ℕ) → Step alive r (get alive r id major minor).0
  gets_latest :
      (id major : ℕ) (matched : Bool) → Step alive r (get_latest alive r id major matched).0
  gives_back : (p : Protocol) → Step alive r (put r p)

pub data Reach : Registry → Type 0 where
  start : Reach (record { protocols = []; calls = [] })
  next : {r s : Registry} (alive : ℕ → Bool) → Reach r → Step alive r s → Reach s

-- The list is sorted, and for each module the references given back and those that the counts stand for
-- do not exceed those taken.
pub record Inv (m : ℕ) (r : Registry) : Type 0 where
  pub sorted : IsSorted r.protocols
  pub held : puts m r.calls + total m r.protocols ≤ gets m r.calls

insert-total :
    (m : ℕ) (p : Protocol) (ps qs : List Protocol)
    → p.count ≡ 0
    → insert p ps ≡ some qs
    → total m qs ≡ total m ps
unfolding insert total
insert-total m p [] qs c h = let e : p ∷ [] ≡ qs = ground arith in rw (← e, total) (ground arith)
insert-total m p (q ∷ ps) qs c h = elim (Place-cases (place_major q p.id p.major)) [
  | inl e ↦ elim (Option-cases (insert p ps)) [
    | inl n ↦ absurd (ground arith)
    | inr (rs, k) ↦
        let same : q ∷ rs ≡ qs = ground arith in
        rw (← same, total) (ground (arith, insert-total m p ps rs c k))
  ]
  | inr (inl e) ↦ let same : p ∷ q ∷ ps ≡ qs = ground arith in rw (← same, total) (ground arith)
  | inr (inr e) ↦ absurd (ground arith)
]

register-Inv :
    (m : ℕ) (r : Registry) (p : Protocol) (owner : ℕ)
    → p.count ≡ 0
    → Inv m r
    → Inv m (register r p owner).0
unfolding register
register-Inv m r p owner c v =
    elim (Option-cases (insert (record p { owner = owner }) r.protocols)) [
      | inl e ↦ rw (e, register) v
      | inr (qs, e) ↦ record {
        sorted = sorted_after (register-Registered r p owner v.sorted);
        held =
            rw (e, register)
              (omega
                (arith, insert-total m (record p { owner = owner }) r.protocols qs c e, v.held));
      }
    ]
  where
    sorted_after :
        Registered r (record p { owner = owner }) (register r p owner)
        → IsSorted (register r p owner).0.protocols
    sorted_after (inl h) = rw (h.2) v.sorted
    sorted_after (inr h) = h.2

deregister-Inv : (m : ℕ) (r : Registry) (p : Protocol) → Inv m r → Inv m (deregister r p)
unfolding deregister
deregister-Inv m r p v = elim (Option-cases (find r.protocols p.id p.major p.minor)) [
  | inl e ↦ rw (e, deregister) v
  | inr (q, e) ↦ rw (e, deregister) (removed q)
]
  where
    removed :
        (q : Protocol)
        → Inv m (
            if q.count == 0
            then record r { protocols = delete r.protocols p.id p.major p.minor }
            else r)
    removed q = elim (Bool-cases (q.count == 0)) [
      | inl z ↦ rw z (record {
        sorted = delete-IsSorted r.protocols p.id p.major p.minor v.sorted;
        held = omega (arith, total-delete m r.protocols p.id p.major p.minor, v.held);
      })
      | inr z ↦ rw z v
    ]

put-Inv : (m : ℕ) (r : Registry) (p : Protocol) → Inv m r → Inv m (put r p)
unfolding put unbump
put-Inv m r p v = elim (Option-cases (find r.protocols p.id p.major p.minor)) [
  | inl e ↦ rw (e, put) v
  | inr (q, e) ↦ elim (Bool-cases (q.count == 0)) [
    | inl z ↦ rw (e, put, z) v
    | inr z ↦
        rw (e, put, z)
          (record {
            sorted = update-IsSorted unbump unbump-Keeps r.protocols p.id p.major p.minor v.sorted;
            held = ground (
              arith,
              total-update m unbump unbump-Keeps r.protocols p.id p.major p.minor e,
              v.held,
              puts-put m q.owner r.calls,
              gets-put m q.owner r.calls,
            );
          })
  ]
]

get_found-Inv :
    (m : ℕ) (alive : ℕ → Bool) (r : Registry) (o : Option Protocol)
    → ((p : Protocol) → o ≡ some p → find r.protocols p.id p.major p.minor ≡ some p)
    → Inv m r
    → Inv m (get_found alive r o).0
unfolding get_found bump
get_found-Inv m alive r none k v = v
get_found-Inv m alive r (some p) k v = elim (Bool-cases (alive p.owner)) [
  | inl a ↦
      rw (a, get_found)
        (record {
          sorted = update-IsSorted bump bump-Keeps r.protocols p.id p.major p.minor v.sorted;
          held = ground (
            arith,
            total-update m bump bump-Keeps r.protocols p.id p.major p.minor (k p refl),
            v.held,
            puts-get m p.owner r.calls,
            gets-get m p.owner r.calls,
          );
        })
  | inr a ↦ rw (a, get_found) v
]

find_latest-In :
    (ps : List Protocol) (id major : ℕ) (matched : Bool)
    → IsSorted ps
    → (p : Protocol) → find_latest ps id major matched ≡ some p
    → In p ps
find_latest-In ps id major true s p h = ((find_latest_iff ps id major p s).0 h).0
find_latest-In ps id major false s p h = (rw h at (find_latest-Newest ps id major s)).0

find_self :
    (ps : List Protocol) (p : Protocol)
    → IsSorted ps
    → In p ps
    → find ps p.id p.major p.minor ≡ some p
find_self ps p s i = (find_iff ps p.id p.major p.minor p s).1 (i, refl, refl, refl)

-- Each call keeps the invariant.
pub Step-Inv : (m : ℕ) {alive : ℕ → Bool} {r s : Registry} → Step alive r s → Inv m r → Inv m s
unfolding get get_latest
Step-Inv m {r = r} (registers p owner c) v = register-Inv m r p owner c v
Step-Inv m {r = r} (deregisters p) v = deregister-Inv m r p v
Step-Inv m {alive} {r = r} (gets_exact id major minor) v =
    get_found-Inv m alive r _
      (λ p h.
        find_self r.protocols p v.sorted ((find_iff r.protocols id major minor p v.sorted).0 h).0)
      v
Step-Inv m {alive} {r = r} (gets_latest id major matched) v =
    get_found-Inv m alive r _
      (λ p h.
        find_self r.protocols p v.sorted (find_latest-In r.protocols id major matched v.sorted p h))
      v
Step-Inv m {r = r} (gives_back p) v = put-Inv m r p v

-- After any sequence of calls the list is sorted, and the references that protocol.c gave back on a
-- module, with those that the counts of its protocols stand for, are at most those it took: a module is
-- never released more often than it was taken, and one whose protocols are in use is held.
pub Reach-Inv : (m : ℕ) {r : Registry} → Reach r → Inv m r
unfolding gets puts total
Reach-Inv m start = record { sorted = tt; held = omega arith }
Reach-Inv m (next alive h st) = Step-Inv m st (Reach-Inv m h)
