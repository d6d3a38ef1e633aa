-- ===== src/Protocol/Tests.antt =====
-- Runs of protocol.c's functions, and its theorems at a registry of three protocols.
use motorola_external_greybu.Prelude.{ℕ, ◌≡◌, refl, Bool, true, some, [], ◌∷◌, arith}
use motorola_external_greybu.Prelude.Errno.{success, eexist}
use motorola_external_greybu.Protocol.{
  Protocol, Registry, Link, Reply, place_major, place, find, place_latest, find_latest, insert,
  register, deregister, delete, get, get_found, get_latest, put, bump, get_version, find_match,
  negotiate_after, version_negotiate, module_get, module_put,
}
use motorola_external_greybu.Protocol.Order.{IsSorted, Registered, register-Registered}
use motorola_external_greybu.Protocol.Refs.Invariant.{
  Inv, Reach, start, next, registers, gets_exact, Reach-Inv,
}
use motorola_external_greybu.Protocol.Refs.RoundTrip.{put-get}
use motorola_external_greybu.Protocol.Negotiate.{Agreed, version_negotiate-Agreed}

abbrev gpio_1 : Protocol
gpio_1 = record { id = 2; major = 1; minor = 4; count = 3; owner = 10 }

abbrev gpio_0 : Protocol
gpio_0 = record { id = 2; major = 0; minor = 7; count = 0; owner = 10 }

abbrev spi_0 : Protocol
spi_0 = record { id = 11; major = 0; minor = 1; count = 0; owner = 12 }

abbrev three : Registry
three = record { protocols = gpio_1 ∷ gpio_0 ∷ spi_0 ∷ []; calls = [] }

abbrev always : ℕ → Bool
always m = true

abbrev fresh_i2c : Protocol
fresh_i2c = record { id = 3; major = 0; minor = 1; count = 0; owner = 0 }

-- A second minor version of a registered id and major version is refused.
register_second_minor : (register three (record gpio_0 { minor = 8 }) 10).1 ≡ eexist
unfolding register insert place_major
register_second_minor = refl

register_middle :
    (register three fresh_i2c 20).0.protocols
    ≡ gpio_1 ∷ gpio_0 ∷ record fresh_i2c { owner = 20 } ∷ spi_0 ∷ []
unfolding register insert place_major
register_middle = refl

deregister_in_use : (deregister three gpio_1 ≡ three)
unfolding deregister find place place_major
deregister_in_use = refl

deregister_idle : (deregister three gpio_0).protocols ≡ gpio_1 ∷ spi_0 ∷ []
unfolding deregister find delete place place_major
deregister_idle = refl

three-IsSorted : IsSorted three.protocols
three-IsSorted = omega arith

register-Registered_example :
    Registered three (record fresh_i2c { owner = 20 }) (register three fresh_i2c 20)
register-Registered_example = register-Registered three fresh_i2c 20 three-IsSorted

-- A driver registers a protocol, and a connection takes it.
taken : Reach (get always (register (record { protocols = []; calls = [] }) gpio_0 10).0 2 0 7).0
taken = next always (next always start (registers gpio_0 10 refl)) (gets_exact 2 0 7)

Reach-Inv_example :
    Inv 10 (get always (register (record { protocols = []; calls = [] }) gpio_0 10).0 2 0 7).0
Reach-Inv_example = Reach-Inv 10 taken

put-get_example :
    ((get always three 2 1 4).1 ≡ some (record gpio_1 { count = 4 }))
    × ((put (get always three 2 1 4).0 (record gpio_1 { count = 4 }))
        ≡ record { protocols = three.protocols; calls = module_get 10 ∷ module_put 10 ∷ [] })
unfolding find place place_major
put-get_example = put-get always three 2 1 4 refl refl (omega arith)

-- The module first answers that it has major version 0, and then confirms it.
abbrev old_module : ℕ → ℕ → Reply
old_module major minor = record { retval = success; major = 0; minor = 7 }

abbrev bound : Link
bound = record { protocol = gpio_1; module_major = 0; module_minor = 0 }

version_negotiate_runs :
    (version_negotiate always old_module old_module three bound).1.protocol
    ≡ record gpio_0 { count = 1 }
unfolding version_negotiate get_version negotiate_after find_match get_latest get_found find_latest
    place_latest place_major bump
version_negotiate_runs = refl

version_negotiate-Agreed_example :
    Agreed bound (version_negotiate always old_module old_module three bound).1
unfolding version_negotiate get_version negotiate_after find_match get_latest get_found find_latest
    place_latest place_major bump
version_negotiate-Agreed_example =
    version_negotiate-Agreed always old_module old_module three bound three-IsSorted refl
