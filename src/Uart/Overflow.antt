-- ===== src/Uart/Overflow.antt =====
-- What `n_mods_uart_receive_buf2` does with more bytes than the buffer has room for.
use motorola_external_greybu.Prelude.{
  ℕ, suc, ◌+◌, ◌-◌, ◌≤◌, ◌<◌, ◌≡◌, refl, sym, ap, ◌∙◌, false, Option, none, some, List, [], ◌∷◌,
  ◌++◌, ◌==◌, take, drop, length, arith, length-append, length-drop, take-append, take-append_left,
  take-append-drop,
}
use motorola_external_greybu.Uart.{
  Uart, Message, mhb_max_msg_size, consume_segment, abort_full, copy_size, with_message,
  receive_round, receive_loop, clean_up, receive_buf2,
}
use motorola_external_greybu.Uart.Frames.{
  frame, length-frame, consume_segment-frame, consume_segment-start, consume_all-last,
  receive_loop-last,
}
use mathlib.Core.List.{append-nil}

copy_size_full : (n : ℕ) → mhb_max_msg_size ≤ n → copy_size n 0 ≡ mhb_max_msg_size
copy_size_full n h = ground arith

copy_size_part : (n : ℕ) → n < mhb_max_msg_size → copy_size n 0 ≡ n
copy_size_part n h = ground arith

module _ (crc16 : List ℕ → ℕ) (word : (bytes : List ℕ) → crc16 bytes < 65536) where
  -- A round whose bytes wait or make one message
  round_last :
      (mud mud' : Uart) (cp : List ℕ) (n c : ℕ) (o : Option Message)
      → length mud.rx_data < mhb_max_msg_size
      → copy_size n (length mud.rx_data) ≡ c
      → consume_segment crc16 (record mud { rx_data = mud.rx_data ++ take c cp }) ≡ (mud', o, false)
      → (receive_round crc16 mud cp n ≡ some (mud', with_message o [])) × (abort_full mud ≡ mud)
  unfolding receive_round
  round_last mud mud' cp n c o room size e =
      let kept : abort_full mud ≡ mud = unfold abort_full in ground arith in
      (
        rw kept (
            rw size (
              consume_all-last crc16 word (length (mud.rx_data ++ take c cp))
                (record mud { rx_data = mud.rx_data ++ take c cp }) mud' o e)),
        kept,
      )

  clean_up_empty : (mud : Uart) → mud.rx_data ≡ [] → clean_up false mud ≡ mud
  unfolding clean_up
  clean_up_empty mud r = ground arith

  receive_loop-next :
      (fuel n n' : ℕ) (mud mud' mud'' : Uart) (cp : List ℕ) (ms ns : List Message)
      → 0 < n
      → receive_round crc16 mud cp n ≡ some (mud', ms)
      → n - copy_size n (length (abort_full mud).rx_data) ≡ n'
      → receive_loop crc16 fuel mud' cp n' ≡ some (mud'', ns)
      → receive_loop crc16 (suc fuel) mud cp n ≡ some (mud'', ms ++ ns)
  unfolding receive_loop
  receive_loop-next fuel n n' mud mud' mud'' cp ms ns h e z k =
      let more : (n == 0) ≡ false = ground arith in
      rw (more, receive_loop)
        (rw (e, receive_loop) (rw (z, receive_loop) (rw (k, receive_loop) refl)))

  -- If two messages arrive at once, and the first one fills the buffer, then the second one is lost: the bytes
  -- that are left in the buffer are the first ones of the first message again. The second message is shorter.
  pub receive_buf2-repeats :
      (mud : Uart) (m m2 : Message)
      → mud.rx_data ≡ []
      → length m.payload ≡ 2040
      → length m2.payload < 2040
      → receive_buf2 crc16 false mud (frame crc16 word m ++ frame crc16 word m2)
        ≡ some (
          record mud { rx_data = take (length (frame crc16 word m2)) (frame crc16 word m) },
          m ∷ [],
        )
  unfolding receive_buf2
  receive_buf2-repeats mud m m2 r h k =
      let f = frame crc16 word m in
      let f2 = frame crc16 word m2 in
      let cp = f ++ f2 in
      let n2 = length f2 in
      let size : length f ≡ 2048 = omega (arith, length-frame crc16 word m) in
      let size2 : length f2 ≡ length m2.payload + 8 = length-frame crc16 word m2 in
      let whole : length cp ≡ 2048 + n2 = omega (arith, length-append f f2) in
      let empty : Uart = record mud { rx_data = [] } in
      let start : Uart = record mud { rx_data = take n2 f } in
      let first_bytes : take 2048 cp ≡ f = ap (λ n. take n cp) (sym size) ∙ take-append f f2 in
      let full = copy_size_full (length cp) (omega arith) in
      let part = copy_size_part n2 (omega arith) in
      let first = round_last empty empty cp (length cp) 2048 (some m) (omega arith) full (
        consume_segment-frame crc16 word (record mud { rx_data = take 2048 cp }) m [] (omega arith)
          (first_bytes ∙ sym (append-nil f))) in
      let again : take n2 cp ≡ take n2 f = take-append_left n2 f f2 (omega arith) in
      let wait : consume_segment crc16 start ≡ (start, none, false) =
        consume_segment-start crc16 word start m (drop n2 f) (omega arith) (take-append-drop n2 f)
          (omega (arith, length-drop n2 f)) in
      let second = round_last empty start cp n2 n2 none (omega arith) part (
        ap (λ d. consume_segment crc16 (let u : Uart = record mud { rx_data = d } in u)) again
        ∙ wait) in
      let same : mud ≡ empty = ap (λ d. let u : Uart = record mud { rx_data = d } in u) r in
      let clean : clean_up false mud ≡ mud = clean_up_empty mud r in
      let rounds : length cp ≡ suc (suc (2046 + n2)) = omega arith in
      let last =
        receive_loop-last crc16 word (2046 + n2) n2 empty start cp [] (omega arith) second.0
          (rw second.1 (rw part (omega arith))) in
      let both =
        receive_loop-next (suc (2046 + n2)) (length cp) n2 empty empty start cp (m ∷ []) []
          (omega arith) first.0 (rw first.1 (rw full (omega arith))) last in
      ap (λ u. receive_loop crc16 (length cp) u cp (length cp)) (clean ∙ same)
      ∙ ap (λ fuel. receive_loop crc16 fuel empty cp (length cp)) rounds
      ∙ both
