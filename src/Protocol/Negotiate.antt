-- ===== src/Protocol/Negotiate.antt =====
-- The negotiation of a protocol's version, and the reference that the connection holds meanwhile.
use motorola_external_greybu.Prelude.{
  ℕ, ◌≤◌, ◌≡◌, inl, inr, refl, ap, Bool, true, some, arith, ◌∙◌, Option-cases, Bool-cases, ◌==◌,
}
use motorola_external_greybu.Prelude.Errno.{Errno, success, eprotonosupport}
use motorola_external_greybu.Protocol.Order.{IsSorted}
use motorola_external_greybu.Protocol.Lookup.{find_latest_iff}
use motorola_external_greybu.Protocol.{
  Protocol, find_latest, bump, get_found, get_latest, Registry, Link, Reply, get_version,
  find_match, negotiate_after, version_negotiate,
}

-- What `get_version` leaves: it binds no other protocol, and success means a major version of the module
-- that the protocol covers.
get_version-le :
    (sync : ℕ → ℕ → Reply) (c : Link)
    → (get_version sync c).1 ≡ success
    → (get_version sync c).0.module_major ≤ (get_version sync c).0.protocol.major
unfolding get_version
get_version-le sync c h = ground arith

get_version-protocol :
    (sync : ℕ → ℕ → Reply) (c : Link) → (get_version sync c).0.protocol ≡ c.protocol
unfolding get_version
get_version-protocol sync c = ground arith

bump-id : (p : Protocol) → ((bump p).id ≡ p.id) × ((bump p).major ≡ p.major)
unfolding bump
bump-id p = ground arith

get_latest-some :
    (alive : ℕ → Bool) (r : Registry) (id major : ℕ) (b : Bool) {p : Protocol}
    → (get_latest alive r id major b).1 ≡ some p
    → (q : Protocol) × (find_latest r.protocols id major b ≡ some q) × (p ≡ bump q)
unfolding get_latest get_found
get_latest-some alive r id major b {p} h =
    elim (Option-cases (find_latest r.protocols id major b)) [
      | inl e ↦ absurd (ground arith)
      | inr (q, e) ↦ (q, e, ground arith)
    ]

find_match-le :
    (alive : ℕ → Bool) (again : ℕ → ℕ → Reply) (r : Registry) (c : Link)
    → (find_match alive again r c).2 ≡ success
    → (find_match alive again r c).1.module_major ≤ (find_match alive again r c).1.protocol.major
unfolding find_match
find_match-le alive again r c h =
    elim (Option-cases (get_latest alive r c.protocol.id c.module_major true).1) [
      | inl e ↦ absurd (ground arith)
      | inr (p, e) ↦
          rw (e, find_match)
            (get_version-le again (record c { protocol = p }) (rw (e, find_match) at h))
    ]

-- What a successful negotiation has bound.
abbrev pub Agreed : Link → Link → Type 0
Agreed c c' = (c'.module_major ≤ c'.protocol.major) × (c'.protocol.id ≡ c.protocol.id)

find_match-id :
    (alive : ℕ → Bool) (again : ℕ → ℕ → Reply) (r : Registry) (c : Link)
    → IsSorted r.protocols
    → (find_match alive again r c).1.protocol.id ≡ c.protocol.id
unfolding find_match
find_match-id alive again r c s =
    elim (Option-cases (get_latest alive r c.protocol.id c.module_major true).1) [
      | inl e ↦ rw (e, find_match)
      | inr (p, e) ↦
          rw (e, find_match, get_version-protocol again (record c { protocol = p }))
            (bound p (get_latest-some alive r c.protocol.id c.module_major true e))
    ]
  where
    bound :
        (p : Protocol)
        → ((q : Protocol) × (find_latest r.protocols c.protocol.id c.module_major true ≡ some q)
            × (p ≡ bump q))
        → p.id ≡ c.protocol.id
    bound p (q, f, e) =
        rw e
          ((bump-id q).0 ∙ ((find_latest_iff r.protocols c.protocol.id c.module_major q s).0 f).1)

negotiate_after-Agreed :
    (alive : ℕ → Bool) (again : ℕ → ℕ → Reply) (r : Registry) (c : Link) (e : Errno)
    → IsSorted r.protocols
    → (negotiate_after alive again r c e).2 ≡ success
    → Agreed c (negotiate_after alive again r c e).1
unfolding negotiate_after
negotiate_after-Agreed alive again r c success s h =
    elim (Bool-cases (c.module_major == c.protocol.major)) [
      | inl m ↦ rw (m, negotiate_after) (ground arith, refl)
      | inr m ↦
          rw (m, negotiate_after)
            (
              find_match-le alive again r c (rw (m, negotiate_after) at h),
              find_match-id alive again r c s,
            )
    ]
negotiate_after-Agreed alive again r c eprotonosupport s h =
    (find_match-le alive again r c h, find_match-id alive again r c s)
negotiate_after-Agreed alive again r c _ s h = absurd (cc)

-- If the negotiation succeeds, on a sorted list and whatever the two version requests answer, then the
-- connection's protocol still has the id that it had before, and the module's major version, as the last
-- answer gives it, is at most that of the protocol.
pub version_negotiate-Agreed :
    (alive : ℕ → Bool) (first again : ℕ → ℕ → Reply) (r : Registry) (c : Link)
    → IsSorted r.protocols
    → (version_negotiate alive first again r c).2 ≡ success
    → Agreed c (version_negotiate alive first again r c).1
unfolding version_negotiate
version_negotiate-Agreed alive first again r c s h =
    let (a, b) =
      negotiate_after-Agreed alive again r (get_version first c).0 (get_version first c).1 s h in
    (a, b ∙ ap (λ (p : Protocol). p.id) (get_version-protocol first c))
