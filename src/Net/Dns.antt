-- ===== src/Net/Dns.antt =====
-- uvio/net/dns.hpp: the awaiter of `DNS::resolve`. What libuv finds for the name comes with its
-- callback, and so does the text that `uv_ip4_name` makes of the address.
pub mod Resolve
use uvio.Prelude.{
  ℕ, ◌+◌, ◌<◌, Bool, true, false, ltb, ◌==◌, List, [], ◌∷◌, ◌++◌, length, replicate, overwrite,
  if◌then◌else◌,
}
use uvio.Common.Result.{Result, ok, unexpected, uvio_error, resolve_failed}

-- `ResolveAwaiter`.
pub record ResolveAwaiter : Type 0 where
  pub handle : Bool
  pub ipv4addr : List ℕ
  pub resolved : Bool

-- What the callback is called with: an address, by its text, or a status below zero.
pub data Resolution : Type 0 where
  found : List ℕ → Resolution
  failed : ℕ → Resolution

abbrev pub resolve_start : ResolveAwaiter
resolve_start = record { handle = false; ipv4addr = replicate 17 0; resolved = false }

-- `uv_ip4_name(..., ipv4addr_.data(), 16)`, which writes nothing where the text and its NUL do not fit.
unfoldable pub put_name : List ℕ → List ℕ → List ℕ
put_name text buf = if ltb (length text) 16 then overwrite 0 (text ++ 0 ∷ []) buf else buf

unfoldable pub resolve_callback : Resolution → ResolveAwaiter → ResolveAwaiter × Bool
unfolding put_name
resolve_callback (found text) a =
    (record a { ipv4addr = put_name text a.ipv4addr; resolved = true }, a.handle)
resolve_callback (failed n) a = (record a { resolved = true }, a.handle)

unfoldable pub resolve_suspend : ResolveAwaiter → ResolveAwaiter
resolve_suspend a = record a { handle = true }

-- The bytes in front of the first NUL; the last of the 17 bytes is never written.
unfoldable pub up_to_nul : List ℕ → List ℕ
up_to_nul [] = []
up_to_nul (x ∷ xs) = let rest = up_to_nul xs in if x == 0 then [] else x ∷ rest

-- An address that is not empty, and `ResolveFailed` else.
abbrev pub address_of : List ℕ → Result (List ℕ)
address_of [] = unexpected (uvio_error resolve_failed)
address_of (c ∷ cs) = ok (c ∷ cs)

unfoldable pub resolve_resume : ResolveAwaiter → Result (List ℕ) × ResolveAwaiter
unfolding up_to_nul
resolve_resume a = (address_of (up_to_nul a.ipv4addr), a)
