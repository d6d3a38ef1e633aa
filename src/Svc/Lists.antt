-- ===== src/Svc/Lists.antt =====
-- The ids of the interfaces, and the device ids that are in use for them.
use motorola_external_greybu.Prelude.{
  ℕ, ◌≡◌, ◌≢◌, refl, ap, subst, ◌∙◌, sym, inl, inr, Bool, true, false, Bool-cases, some, List, [],
  ◌∷◌, ltb, ◌==◌, if◌then◌else◌, All, arith,
}
use motorola_external_greybu.Connection.{remove_id}
use motorola_external_greybu.Connection.Create.{Distinct, remove_id-free}
use motorola_external_greybu.Interface.{Interface, device_id_bad, interface_find, interface_remove}

abbrev pub ids : List Interface → List ℕ
ids [] = []
ids (intf ∷ rest) = intf.interface_id ∷ ids rest

abbrev pub device_ids : List Interface → List ℕ
device_ids [] = []
device_ids (intf ∷ rest) = intf.device_id ∷ device_ids rest

-- The ids of the map that an interface can have
abbrev pub usable : List ℕ → List ℕ
usable [] = []
usable (n ∷ ns) = if ltb n device_id_bad then n ∷ usable ns else usable ns

pub usable-remove_id : (n : ℕ) (ns : List ℕ) → usable (remove_id n ns) ≡ remove_id n (usable ns)
unfolding remove_id
usable-remove_id n [] = refl
usable-remove_id n (m ∷ ms) = ground (arith, usable-remove_id n ms)

ids-if :
    (b : Bool) (i : ℕ) (x : Interface) (rest removed : List Interface)
    → (x.interface_id == i) ≡ b
    → All (λ m. m ≢ x.interface_id) (ids rest)
    → ids removed ≡ remove_id i (ids rest)
    → ids (if b then rest else x ∷ removed)
      ≡ (if b then remove_id i (ids rest) else x.interface_id ∷ remove_id i (ids rest))
ids-if true i x rest removed e free h =
    let same : x.interface_id ≡ i = ground arith in
    sym (remove_id-free i (ids rest) (subst (λ n. All (λ m. m ≢ n) (ids rest)) same free))
ids-if false i x rest removed e free h = ap (λ l. x.interface_id ∷ l) h

pub ids-interface_remove :
    (i : ℕ) (is : List Interface)
    → Distinct (ids is)
    → ids (interface_remove i is) ≡ remove_id i (ids is)
unfolding interface_remove remove_id
ids-interface_remove i [] d = refl
ids-interface_remove i (x ∷ rest) d =
    ids-if (x.interface_id == i) i x rest (interface_remove i rest) refl d.0
      (ids-interface_remove i rest d.1)

some_injective : {a b : Interface} → some a ≡ some b → a ≡ b
some_injective e = cc

-- What holds of all interfaces holds of one that is found.
pub All-interface_find :
    (p : ℕ → Type 0) (i : ℕ) (is : List Interface) (intf : Interface)
    → All p (device_ids is)
    → interface_find is i ≡ some intf
    → p intf.device_id
unfolding interface_find
All-interface_find p i [] intf h e = absurd (ground arith)
All-interface_find p i (x ∷ rest) intf h e = elim (Bool-cases (x.interface_id == i)) [
  | inl y ↦
      let same : x ≡ intf =
        some_injective (sym (ap (λ c. if c then some x else interface_find rest i) y) ∙ e) in
      subst (λ (r : Interface). p r.device_id) same h.0
  | inr y ↦
      All-interface_find p i rest intf h.1
        (sym (ap (λ c. if c then some x else interface_find rest i) y) ∙ e)
]

device_ids-if :
    (b : Bool) (x intf : Interface) (rest removed : List Interface)
    → All (λ m. m ≢ x.device_id) (device_ids rest)
    → (b ≡ true → x.device_id ≡ intf.device_id)
    → (b ≡ false
        → (intf.device_id ≢ x.device_id)
          × (device_ids removed ≡ remove_id intf.device_id (device_ids rest)))
    → device_ids (if b then rest else x ∷ removed) ≡ (
        if x.device_id == intf.device_id
        then remove_id intf.device_id (device_ids rest)
        else x.device_id ∷ remove_id intf.device_id (device_ids rest))
device_ids-if true x intf rest removed free same other =
    let e = same refl in
    let test : (x.device_id == intf.device_id) ≡ true = ground arith in
    rw test (
      sym (
        remove_id-free intf.device_id (device_ids rest)
          (subst (λ n. All (λ m. m ≢ n) (device_ids rest)) e free)))
device_ids-if false x intf rest removed free same other =
    let (apart, h) = other refl in
    let test : (x.device_id == intf.device_id) ≡ false = ground arith in
    rw test (ap (λ l. x.device_id ∷ l) h)

-- The interface that is found is the one that is removed.
pub device_ids-interface_remove :
    (i : ℕ) (is : List Interface) (intf : Interface)
    → Distinct (device_ids is)
    → interface_find is i ≡ some intf
    → device_ids (interface_remove i is) ≡ remove_id intf.device_id (device_ids is)
unfolding interface_remove interface_find remove_id
device_ids-interface_remove i [] intf d e = absurd (ground arith)
device_ids-interface_remove i (x ∷ rest) intf d e =
    device_ids-if (x.interface_id == i) x intf rest (interface_remove i rest) d.0
      (λ y.
        ap (λ (r : Interface). r.device_id)
          (some_injective (sym (ap (λ c. if c then some x else interface_find rest i) y) ∙ e)))
      (λ y.
        let f = sym (ap (λ c. if c then some x else interface_find rest i) y) ∙ e in
        (
          All-interface_find (λ m. m ≢ x.device_id) i rest intf d.0 f,
          device_ids-interface_remove i rest intf d.1 f,
        ))

All-if :
    (p : ℕ → Type 0) (b : Bool) (xs ys : List ℕ)
    → All p xs
    → All p ys
    → All p (if b then xs else ys)
All-if p true xs ys h k = h
All-if p false xs ys h k = k

Distinct-if :
    (b : Bool) (xs ys : List ℕ) → Distinct xs → Distinct ys → Distinct (if b then xs else ys)
Distinct-if true xs ys h k = h
Distinct-if false xs ys h k = k

pub All-remove_id : (p : ℕ → Type 0) (n : ℕ) (ns : List ℕ) → All p ns → All p (remove_id n ns)
unfolding remove_id
All-remove_id p n [] h = h
All-remove_id p n (m ∷ ms) h =
    All-if p (m == n) _ _ (All-remove_id p n ms h.1) (h.0, All-remove_id p n ms h.1)

pub Distinct-remove_id : (n : ℕ) (ns : List ℕ) → Distinct ns → Distinct (remove_id n ns)
unfolding remove_id
Distinct-remove_id n [] h = h
Distinct-remove_id n (m ∷ ms) h =
    Distinct-if (m == n) _ _ (Distinct-remove_id n ms h.1)
      (All-remove_id (λ k. k ≢ m) n ms h.0, Distinct-remove_id n ms h.1)

All-usable : (p : ℕ → Type 0) (ns : List ℕ) → All p ns → All p (usable ns)
All-usable p [] h = h
All-usable p (m ∷ ms) h =
    All-if p (ltb m device_id_bad) _ _ (h.0, All-usable p ms h.1) (All-usable p ms h.1)

pub Distinct-usable : (ns : List ℕ) → Distinct ns → Distinct (usable ns)
Distinct-usable [] h = h
Distinct-usable (m ∷ ms) h =
    Distinct-if (ltb m device_id_bad) _ _ (All-usable (λ k. k ≢ m) ms h.0, Distinct-usable ms h.1)
      (Distinct-usable ms h.1)
