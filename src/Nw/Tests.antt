-- ===== src/Nw/Tests.antt =====
-- Runs of mods_nw.c, and the theorems at them.
use motorola_external_greybu.Prelude.{
  ℕ, ◌≡◌, refl, true, false, Option, none, some, [], ◌==◌, if◌then◌else◌,
}
use motorola_external_greybu.Prelude.Errno.{Errno, success, enoent}
use motorola_external_greybu.Prelude.Maps.{lookup, insert, map_values}
use motorola_external_greybu.Nw.Defs.{
  Network, Filter, Message, null_pointer, add_dl_device, add_route, register_filter, switch,
  get_dl_device, find_dest, find_filter, filter_present, set_filter, need_dest, with_tree,
  join_route,
}
use motorola_external_greybu.Nw.Filters.{FlagsMatch}
use motorola_external_greybu.Nw.Calls.{
  Reach, start, next, adds_device, registers, adds_route, Reach-FlagsMatch,
}
use motorola_external_greybu.Nw.FarEnd.{switch-null_pointer}

-- The processor (5) speaks protocol 7 on its CPort 3.
abbrev protocol_of : ℕ → Option (ℕ → Errno × ℕ)
protocol_of dev = if dev == 5 then some (λ c. (success, 7)) else none

abbrev passes : Filter → ℕ → Message → Errno
passes f dev m = enoent

abbrev sends : ℕ → Message → Errno
sends dev m = success

abbrev audio_filter : Filter
audio_filter = record { number = 1; protocol_id = 7; type = 2; initialized = false }

abbrev none_yet : Network
none_yet = record { filters = []; interfaces = [] }

abbrev one_device : Network
one_device = (add_dl_device none_yet 5 1 true).0

abbrev two_devices : Network
two_devices = (add_dl_device one_device 6 2 true).0

abbrev filtered : Network
filtered = (register_filter two_devices audio_filter).0

abbrev routed : Network
routed = (add_route protocol_of filtered 1 3 2 4 true true).0

reached : Reach routed
reached =
    next
      (next (next (next start (adds_device 5 1 true)) (adds_device 6 2 true))
        (registers audio_filter))
      (adds_route protocol_of 1 3 2 4 true true)

abbrev far_message : Message
far_message = record { cport = 4; type = 2; rest = [] }

abbrev near_message : Message
near_message = record { cport = 3; type = 2; rest = [] }

Reach-FlagsMatch_example : FlagsMatch routed.filters routed
Reach-FlagsMatch_example = Reach-FlagsMatch reached

switch-null_pointer_example : switch passes sends routed 2 far_message ≡ null_pointer
unfolding add_route add_dl_device get_dl_device lookup register_filter find_filter insert
    filter_present set_filter map_values need_dest find_dest with_tree join_route
switch-null_pointer_example =
    switch-null_pointer passes sends protocol_of filtered 1 3 2 4 true true far_message refl refl
      refl refl
