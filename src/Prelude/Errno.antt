-- ===== src/Prelude/Errno.antt =====
-- The return codes of the kernel interfaces. The numbers come from the kernel's headers, so a code is
-- known by its name; `other n` stands for any code that the repository does not name.
use Prim.Native.Nat.{ℕ}
use mathlib.Core.Bool.{Bool, true, false}
use native.Mathlib.Decide.{ℕ_discrete}

-- `success` is 0, and each other constructor is the negative error number of its name.
pub data Errno : Type 0 where
  success : Errno
  e2big eagain ebadr eexist eilseq einprogress eintr einval eio emsgsize enodev enoent enomem :
      Errno
  enotconn enotsupp eprotonosupport eshutdown etimedout : Errno
  other : ℕ → Errno

pub Errno-discrete : Discrete Errno
Errno-discrete = hlevel ℕ_discrete

-- A result that is not 0
abbrev pub failed : Errno → Bool
failed ret = elim ret [ success ↦ false | _ ↦ true ]
