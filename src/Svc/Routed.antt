-- ===== src/Svc/Routed.antt =====
-- Which routes there are.
use motorola_external_greybu.Prelude.{
  ℕ, ◌≡◌, ◌≢◌, refl, Bool, false, not, ◌&&◌, ◌||◌, List, [], ◌∷◌, ◌==◌, All, arith,
}
use motorola_external_greybu.Connection.{remove_id}

abbrev pub has : ℕ → List ℕ → Bool
has r [] = false
has r (m ∷ ms) = (m == r) || has r ms

-- There is a route to each interface, and one to anything else only if its destruction has failed.
abbrev pub Routed : List ℕ → List ℕ → List ℕ → Type 0
Routed is routes undestroyed =
    (r : ℕ)
    → ((has r is && not (has r routes)) || (has r routes && not (has r is || has r undestroyed)))
      ≡ false

has-remove_id : (r i : ℕ) (ns : List ℕ) → has r (remove_id i ns) ≡ (has r ns && not (i == r))
unfolding remove_id
has-remove_id r i [] = refl
has-remove_id r i (m ∷ ms) = ground (arith, has-remove_id r i ms)

has-away : (r i : ℕ) (ns : List ℕ) → All (λ m. m ≢ i) ns → ((i == r) && has r ns) ≡ false
has-away r i [] a = ground arith
has-away r i (m ∷ ms) a = ground (arith, a.0, has-away r i ms a.1)

-- The cases of one interface: whether it is there, has a route, is logged, and is the one that changes
both_go :
    (a b c e : Bool)
    → ((a && not b) || (b && not (a || c))) ≡ false
    → (((a && not e) && not (b && not e)) || ((b && not e) && not ((a && not e) || c))) ≡ false
both_go a b c e h = ground arith

one_goes :
    (a b c e : Bool)
    → ((a && not b) || (b && not (a || c))) ≡ false
    → (((a && not e) && not b) || (b && not ((a && not e) || (e || c)))) ≡ false
one_goes a b c e h = ground arith

both_come :
    (a b c e : Bool)
    → ((a && not b) || (b && not (a || c))) ≡ false
    → (((e || a) && not (e || b)) || ((e || b) && not ((e || a) || c))) ≡ false
both_come a b c e h = ground arith

route_goes :
    (a b c e : Bool)
    → (e && a) ≡ false
    → ((a && not b) || (b && not (a || c))) ≡ false
    → ((a && not (b && not e)) || ((b && not e) && not (a || c))) ≡ false
route_goes a b c e k h = ground arith

route_stays :
    (a b c e : Bool)
    → ((a && not b) || (b && not (a || c))) ≡ false
    → ((a && not (e || b)) || ((e || b) && not (a || (e || c)))) ≡ false
route_stays a b c e h = ground arith

module _ (i : ℕ) (is routes undestroyed : List ℕ) (h : Routed is routes undestroyed) where
  pub Routed-removed : Routed (remove_id i is) (remove_id i routes) undestroyed
  Routed-removed = λ r.
      rw (has-remove_id r i is, has-remove_id r i routes)
        (both_go (has r is) (has r routes) (has r undestroyed) (i == r) (h r))

  pub Routed-left : Routed (remove_id i is) routes (i ∷ undestroyed)
  Routed-left = λ r.
      rw (has-remove_id r i is)
        (one_goes (has r is) (has r routes) (has r undestroyed) (i == r) (h r))

  pub Routed-plugged : Routed (i ∷ is) (i ∷ routes) undestroyed
  Routed-plugged = λ r. both_come (has r is) (has r routes) (has r undestroyed) (i == r) (h r)

  pub Routed-undone : All (λ m. m ≢ i) is → Routed is (remove_id i routes) undestroyed
  Routed-undone away = λ r. rw (has-remove_id r i routes) (
      route_goes (has r is) (has r routes) (has r undestroyed) (i == r) (has-away r i is away)
        (h r))

  pub Routed-stays : Routed is (i ∷ routes) (i ∷ undestroyed)
  Routed-stays = λ r. route_stays (has r is) (has r routes) (has r undestroyed) (i == r) (h r)
