-- ===== src/Spi/Transfer.antt =====
-- `muc_spi_transfer`: the exchange of a packet with the module, with its retries.
use motorola_external_greybu.Prelude.{
  ℕ, zero, suc, ◌+◌, ◌%◌, ◌^◌, Bool, true, false, not, ◌&&◌, ◌||◌, List, ◌∷◌, if◌then◌else◌,
}
use motorola_external_greybu.Prelude.Errno.{Errno, failed, success, enodev, etimedout}
use motorola_external_greybu.Spi.{
  Spi, Ack, ack_needed, ack_error, parsed, overrun, Delivered, parse_rx_pkt,
}

-- The fields of `struct muc_spi_data` that the exchange changes, with the levels of two pins and the messages that were
-- handed on. `tx_valid` is the bit of the packet to be sent, and the pin WAKE is active when it is low.
pub record SpiLink : Type 0 where
  pub dd : Spi
  pub tx_valid : Bool
  pub ack_output : Bool
  pub ack_pin : Bool
  pub wake_n : Bool
  pub no_ack_sent : ℕ
  pub no_ack_rcvd : ℕ
  pub no_ack_abort : ℕ
  pub delivered : List Delivered

-- What one try meets: whether RDY was asserted in time, whether the module was present then, the result of the
-- exchange and the bytes that came, and the last levels of ACK and INT
pub record Try : Type 0 where
  pub ready : Bool
  pub present : Bool
  pub exchange : Errno
  pub rx_pkt : List ℕ
  pub ack : Bool
  pub int_n : Bool

-- How one try ends: for good, or with a failure that is tried again, which may be a missing acknowledgement
pub data Tried : Type 0 where
  done : SpiLink → Errno → Tried
  again : SpiLink → Errno → Bool → Tried
  crashed : Tried

-- How the exchange ends
pub data Transferred : Type 0 where
  ended : SpiLink → Errno → Transferred
  stopped : Transferred

-- The pins before the exchange
abbrev pub prepare : Bool → Try → SpiLink → SpiLink
prepare keep_wake t l = record l {
  ack_output = if l.dd.ack_supported then false else l.ack_output;
  ack_pin = if l.dd.ack_supported then false else l.ack_pin;
  wake_n = (not keep_wake) || (l.dd.ack_supported || (not t.ready || not t.present));
}

-- The part of `muc_spi_transfer` once the packet is parsed
unfoldable pub acknowledge : Try → Ack → SpiLink → Tried
acknowledge t ack_req l0 =
    let l = record l0 {
      ack_output = true;
      ack_pin = elim ack_req [ ack_needed ↦ true | _ ↦ l0.ack_pin ];
      no_ack_sent = elim ack_req [ ack_error ↦ (l0.no_ack_sent + 1) % 2 ^ 32 | _ ↦ l0.no_ack_sent ];
    } in
    if not l0.dd.ack_supported
    then done l0 success
    else if l.tx_valid && (not t.ack && t.int_n)
    then again (record l { no_ack_rcvd = (l.no_ack_rcvd + 1) % 2 ^ 32 }) etimedout true
    else done l success

module _ (is_power_of_2 : ℕ → Bool) (master_max : ℕ) where
  -- One try of `muc_spi_transfer`
  unfoldable pub attempt : Bool → Try → SpiLink → Tried
  unfolding acknowledge
  attempt keep_wake t l0 =
      let l = prepare keep_wake t l0 in
      if not t.present
      then done l enodev
      else if not t.ready
      then again l etimedout false
      else if failed t.exchange
      then again l t.exchange false
      else elim (parse_rx_pkt is_power_of_2 master_max l.dd t.rx_pkt) [
        | overrun ↦ crashed
        | parsed ack_req dd call ↦
            acknowledge t ack_req (record l { dd = dd; delivered = call ∷ l.delivered })
      ]

  -- `muc_spi_transfer` with some tries left after the next one; `world n` is what the try meets that has n left.
  unfoldable pub transfer : Bool → (ℕ → Try) → ℕ → SpiLink → Transferred
  unfolding attempt
  transfer keep_wake world zero l = elim (attempt keep_wake (world 0) l) [
    | done l' e ↦ ended l' e
    | again l' e no_ack ↦
        ended (if no_ack then record l' { no_ack_abort = (l'.no_ack_abort + 1) % 2 ^ 32 } else l') e
    | crashed ↦ stopped
  ]
  transfer keep_wake world (suc n) l = elim (attempt keep_wake (world (suc n)) l) [
    | done l' e ↦ ended l' e
    | again l' e no_ack ↦ transfer keep_wake world n l'
    | crashed ↦ stopped
  ]

-- `NUM_TRIES`, less the first try
abbrev pub retries : ℕ
retries = 2
