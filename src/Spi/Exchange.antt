-- ===== src/Spi/Exchange.antt =====
-- What the result of `muc_spi_transfer` says about the module.
use motorola_external_greybu.Prelude.{
  ℕ, zero, suc, ◌+◌, ◌*◌, ◌%◌, ◌^◌, ◌≡◌, ◌≤◌, length, refl, ◌⊎◌, inl, inr, Bool, true, false, not,
  ◌&&◌, ◌||◌, ◌∷◌, if◌then◌else◌, arith,
}
use motorola_external_greybu.Prelude.Errno.{Errno, failed, success, enodev, etimedout}
use motorola_external_greybu.Spi.{Spi, Ack, parsed, overrun, parse_rx_pkt, pl_size}
use motorola_external_greybu.Spi.Bounds.{PowerLaw, Aligned, parse_rx_pkt-Taken}
use motorola_external_greybu.Spi.Transfer.{
  SpiLink, Try, Tried, done, again, crashed, Transferred, ended, stopped, prepare, acknowledge,
  attempt, transfer,
}

-- The module was ready, the packets were exchanged, and if the module acknowledges packets and this one was valid, then
-- the module has acknowledged it or has asked for attention.
abbrev pub Exchanged : Try → SpiLink → Type 0
Exchanged t l =
    (t.present ≡ true)
    × (t.ready ≡ true)
    × (t.exchange ≡ success)
    × ((not (l.dd.ack_supported && l.tx_valid) || (t.ack || not t.int_n)) ≡ true)

-- The module was there, but it did not become ready, or the exchange failed, or the acknowledgement did not come.
abbrev pub Unanswered : Try → Errno → Type 0
Unanswered t e =
    (t.present ≡ true)
    × (((t.ready ≡ false) × (e ≡ etimedout))
        ⊎ ((failed t.exchange ≡ true) × (e ≡ t.exchange))
        ⊎ ((t.ack ≡ false) × (t.int_n ≡ true) × (e ≡ etimedout)))

abbrev pub Ended : Try → SpiLink → Errno → Type 0
Ended t l e = ((t.present ≡ false) × (e ≡ enodev)) ⊎ ((e ≡ success) × Exchanged t l)

-- What one try comes to
abbrev Meant : Try → Tried → Type 0
Meant t (done l e) = Ended t l e
Meant t (again l e no_ack) = Unanswered t e × Aligned l.dd
Meant t crashed = ⊥

pick :
    (t : Try) (s b : Bool) (l0 l1 l2 : SpiLink)
    → (s ≡ false → Meant t (done l0 success))
    → (b ≡ true → Meant t (again l1 etimedout true))
    → (b ≡ false → Meant t (done l2 success))
    → Meant t
        (if not s then done l0 success else if b then again l1 etimedout true else done l2 success)
pick t false b l0 l1 l2 f g h = f refl
pick t true true l0 l1 l2 f g h = g refl
pick t true false l0 l1 l2 f g h = h refl

-- The last test of `Exchanged`, and the tests of a missing acknowledgement
no_need : (s v k n : Bool) → s ≡ false → (not (s && v) || (k || not n)) ≡ true
no_need s v k n e = ground arith

answered : (s v k n : Bool) → (v && (not k && n)) ≡ false → (not (s && v) || (k || not n)) ≡ true
answered s v k n e = ground arith

missing : (v k n : Bool) → (v && (not k && n)) ≡ true → (k ≡ false) × (n ≡ true)
missing v k n e = (ground arith, ground arith)

acknowledge-Meant :
    (t : Try) (a : Ack) (l : SpiLink)
    → Aligned l.dd
    → t.present ≡ true
    → t.ready ≡ true
    → t.exchange ≡ success
    → Meant t (acknowledge t a l)
unfolding acknowledge
acknowledge-Meant t a l al p r x =
    let s = l.dd.ack_supported in
    pick t s (l.tx_valid && (not t.ack && t.int_n)) _ _ _
      (λ e. inr (refl, (p, r, x, no_need s l.tx_valid t.ack t.int_n e)))
      (λ e. let (k, n) = missing l.tx_valid t.ack t.int_n e in ((p, inr (inr (k, n, refl))), al))
      (λ e. inr (refl, (p, r, x, answered s l.tx_valid t.ack t.int_n e)))

if-Meant :
    (t : Try) (b : Bool) (r u : Tried)
    → (b ≡ true → Meant t r)
    → (b ≡ false → Meant t u)
    → Meant t (if b then r else u)
if-Meant t true r u f g = f refl
if-Meant t false r u f g = g refl

not-true : (b : Bool) → not b ≡ true → b ≡ false
not-true b e = ground arith

not-false : (b : Bool) → not b ≡ false → b ≡ true
not-false b e = ground arith

no_failure : (r : Errno) → failed r ≡ false → r ≡ success
no_failure success e = refl
no_failure _ e = absurd (cc)

-- A packet's size has room for its header and its checksum, and fits the buffer of a packet.
size-bounds : (dd : Spi) → Aligned dd → (4 ≤ dd.pkt_size) × (dd.pkt_size ≤ 65540)
size-bounds dd a =
    let (d, e) = a.size in
    let (lo, hi) = bounds (pl_size dd) d e in (omega (arith, lo), omega (arith, hi))
  where
    bounds : (n d : ℕ) → n * d ≡ 65536 → (1 ≤ n) × (n ≤ 65536)
    bounds zero d e = absurd (omega arith)
    bounds (suc n) zero e = absurd (omega arith)
    bounds (suc n) (suc d) e = (omega arith, grind arith)

-- No try was answered, from one with some left to the last one.
abbrev pub NoneAnswered : (ℕ → Try) → ℕ → Type 0
NoneAnswered world zero = (e : Errno) × Unanswered (world 0) e
NoneAnswered world (suc n) = ((e : Errno) × Unanswered (world (suc n)) e) × NoneAnswered world n

-- How the exchange ends with some tries left after the next one: after a try that met no module or that exchanged the
-- packets, or after all tries with the failure of the last one
abbrev pub Outcome : (ℕ → Try) → ℕ → Transferred → Type 0
Outcome world n (ended l e) =
    ((i : ℕ) × (i ≤ n) × Ended (world i) l e) ⊎ (NoneAnswered world n × Unanswered (world 0) e)
Outcome world n stopped = ⊥

Outcome-suc :
    (world : ℕ → Try) (n : ℕ) (e : Errno) (r : Transferred)
    → Unanswered (world (suc n)) e
    → Outcome world n r
    → Outcome world (suc n) r
Outcome-suc world n e (ended l f) u (inl (i, h, m)) = inl (i, omega (arith, h), m)
Outcome-suc world n e (ended l f) u (inr (m, v)) = inr (((e, u), m), v)
Outcome-suc world n e stopped u m = m

module _ (is_power_of_2 : ℕ → Bool) (power : PowerLaw is_power_of_2) (master_max : ℕ)
    (keep_wake : Bool) where
  packet-Meant :
      (t : Try) (l : SpiLink)
      → 65540 ≤ length t.rx_pkt
      → Aligned l.dd
      → t.present ≡ true
      → t.ready ≡ true
      → t.exchange ≡ success
      → Meant t (elim (parse_rx_pkt is_power_of_2 master_max l.dd t.rx_pkt) [
        | overrun ↦ crashed
        | parsed ack_req dd call ↦
            acknowledge t ack_req (record l { dd = dd; delivered = call ∷ l.delivered })
      ])
  packet-Meant t l long al p r x =
      let (lo, hi) = size-bounds l.dd al in
      let (a, dd, call, e, al') =
        parse_rx_pkt-Taken is_power_of_2 power master_max l.dd t.rx_pkt (omega (arith, long, hi)) lo
          al in
      rw e (acknowledge-Meant t a (record l { dd = dd; delivered = call ∷ l.delivered }) al' p r x)

  attempt-Meant :
      (t : Try) (l : SpiLink)
      → 65540 ≤ length t.rx_pkt
      → Aligned l.dd
      → Meant t (attempt is_power_of_2 master_max keep_wake t l)
  unfolding attempt
  attempt-Meant t l long al =
      if-Meant t (not t.present) _ _ (λ e. inl (not-true t.present e, refl))
        (λ e.
          let p = not-false t.present e in
          if-Meant t (not t.ready) _ _ (λ f. ((p, inl (not-true t.ready f, refl)), al))
            (λ f.
              if-Meant t (failed t.exchange) _ _ (λ g. ((p, inr (inl (g, refl))), al))
                (λ g.
                  packet-Meant t (prepare keep_wake t l) long al p (not-false t.ready f)
                    (no_failure t.exchange g))))

  -- The exchange always ends within its tries, never with a write beyond a buffer. It ends with a success only
  -- after a try in which the module was ready, the packets were exchanged and, if the module acknowledges packets
  -- and a valid one was sent, it has acknowledged it or asked for attention; with -ENODEV because the module
  -- was gone; or otherwise after all tries, none of which was answered, with the failure of the last one. The buffer
  -- of a packet has its full size, the room for the datagram is a multiple of the payload's size, and
  -- `is_power_of_2` is true for powers of two only.
  pub transfer-Outcome :
      (world : ℕ → Try) (n : ℕ) (l : SpiLink)
      → ((i : ℕ) → 65540 ≤ length (world i).rx_pkt)
      → Aligned l.dd
      → Outcome world n (transfer is_power_of_2 master_max keep_wake world n l)
  unfolding transfer
  transfer-Outcome world zero l long al =
      last (attempt is_power_of_2 master_max keep_wake (world 0) l)
        (attempt-Meant (world 0) l (long 0) al)
    where
      last :
          (r : Tried)
          → Meant (world 0) r
          → Outcome world 0 (elim r [
            | done l' e ↦ ended l' e
            | again l' e no_ack ↦
                ended
                  (if no_ack
                    then record l' { no_ack_abort = (l'.no_ack_abort + 1) % 2 ^ 32 }
                    else l')
                  e
            | crashed ↦ stopped
          ])
      last (done l' e) m = inl (0, omega arith, m)
      last (again l' e no_ack) m = inr ((e, m.0), m.0)
      last crashed m = m
  transfer-Outcome world (suc n) l long al =
      next (λ l' a. transfer-Outcome world n l' long a)
        (attempt is_power_of_2 master_max keep_wake (world (suc n)) l)
        (attempt-Meant (world (suc n)) l (long (suc n)) al)
    where
      next :
          ((l' : SpiLink)
            → Aligned l'.dd
            → Outcome world n (transfer is_power_of_2 master_max keep_wake world n l'))
          → (r : Tried) → Meant (world (suc n)) r
          → Outcome world (suc n) (elim r [
            | done l' e ↦ ended l' e
            | again l' e no_ack ↦ transfer is_power_of_2 master_max keep_wake world n l'
            | crashed ↦ stopped
          ])
      next ih (done l' e) m = inl (suc n, omega arith, m)
      next ih (again l' e no_ack) m =
          Outcome-suc world n e (transfer is_power_of_2 master_max keep_wake world n l') m.0
            (ih l' m.1)
      next ih crashed m = m
