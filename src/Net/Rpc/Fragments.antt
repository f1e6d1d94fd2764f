-- ===== src/Net/Rpc/Fragments.antt =====
-- net/rpc/client.cc and net/rpc/server.cc: the loops that cut a message into datagrams.
pub mod Cut
pub mod Among
pub mod Wrap
use trunk.Prelude.{
  ℕ, zero, suc, ◌+◌, ◌-◌, ◌%◌, ◌^◌, min, List, [], ◌∷◌, ◌++◌, Option, none, some, ltb,
  if◌then◌else◌, take, drop, length,
}
use trunk.Prelude.Monad.{◌>>=◌}
use trunk.Security.Key.{Cipher, Key, encrypt}
use trunk.Net.Rpc.Wire.{Header, partial, to_bytes, nonce}

-- What all fragments of a message share; `direction` is the last byte of the nonce.
pub record Sending : Type 0 where
  pub key : Key
  pub key_fingerprint : ℕ
  pub request_id : ℕ
  pub direction : ℕ
  pub fragment_size : ℕ

module _ (cipher : Cipher) (sending : Sending) where
  -- How much of the message goes into the fragment at an offset.
  abbrev pub size_at : List ℕ → ℕ → ℕ
  size_at message offset = min (length message - offset) sending.fragment_size

  -- The offset is cut to 16 bits, in the header and in the nonce.
  unfoldable pub fragment : List ℕ → ℕ → List ℕ
  fragment message offset =
      let size = size_at message offset in
      to_bytes (record {
        key_fingerprint = sending.key_fingerprint;
        request_id = sending.request_id;
        offset = offset % 2 ^ 16;
        unused = 0;
        flags = if ltb (offset + size) (length message) then partial else 0;
      })
      ++ encrypt cipher sending.key (nonce sending.request_id (offset % 2 ^ 16) sending.direction)
          (take size (drop offset message))

  -- The loop; `none` is fuel that ran out, as it does where no fragment may hold a byte.
  unfoldable pub pack_loop : ℕ → List ℕ → ℕ → Option (List (List ℕ))
  pack_loop zero message offset = none
  pack_loop (suc fuel) message offset =
      let next = offset + size_at message offset in
      let rest = pack_loop fuel message next in
      if ltb next (length message)
      then (do fragments ← rest; some (fragment message offset ∷ fragments))
      else some (fragment message offset ∷ [])

  -- Each round but the last takes a byte at least.
  unfoldable pub pack : List ℕ → Option (List (List ℕ))
  pack message = pack_loop (length message + 1) message 0
