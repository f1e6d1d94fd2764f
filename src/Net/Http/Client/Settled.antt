-- ===== src/Net/Http/Client/Settled.antt =====
-- The connections between two steps.
use trunk.Prelude.{◌≡◌, Option, none, some, true, false, ◌⊎◌, arith}
use trunk.Prelude.Result.{Errc}
use trunk.Net.Http.Client.{
  Call, pools, Reply, Connection, finish, keep_alive, wait_for, write, handshake, close, fail,
  unless_closed, unless_finished, header_read, some_read, handler, released, resolve, async_resolve,
  async_connect, async_handshake, async_write, async_read_header, async_read_some,
}

module _ (Request Response : Type 0) where
  abbrev pub Conn : Type 0
  Conn = Connection Request Response

  -- A connection between two steps: it has been destroyed, and nothing is left of its request; or it
  -- has a call under way, and is not in the pool.
  abbrev pub IsSettled : Conn → Type 0
  IsSettled c =
      ((c.freed ≡ true) × (c.pending ≡ none) × (c.callback ≡ none) × (c.timer ≡ false))
      ⊎ ((c.freed ≡ false)
          × ((call : Call) × (c.pending ≡ some call))
          × (c.connections_iter ≡ false))

  -- A connection within a step.
  abbrev pub IsHandled : Conn → Type 0
  IsHandled c =
      (c.freed ≡ false)
      × (((call : Call) × (c.pending ≡ some call) × (c.connections_iter ≡ false))
          ⊎ ((c.pending ≡ none) × (c.callback ≡ none)))

  pub released-IsSettled : (c : Conn) → IsHandled c → IsSettled (released Request Response c)
  unfolding released
  released-IsSettled c h = ground arith

  pub handler-IsHandled :
      (call : Call) (reply : Reply Request Response) (c : Conn)
      → c.freed ≡ false
      → c.pending ≡ none
      → c.connections_iter ≡ false
      → IsHandled (handler Request Response call reply c).0
  unfolding handler unless_finished unless_closed fail close header_read some_read handshake write
      wait_for keep_alive finish
  handler-IsHandled async_resolve reply c h p i = ground arith
  handler-IsHandled async_connect reply c h p i = ground arith
  handler-IsHandled async_handshake reply c h p i = ground arith
  handler-IsHandled async_write reply c h p i = ground arith
  handler-IsHandled async_read_header reply c h p i = ground arith
  handler-IsHandled async_read_some reply c h p i = ground arith

  -- Only a connection with no call under way goes to the pool, and it keeps its key.
  pub handler-pools :
      (call : Call) (reply : Reply Request Response) (c : Conn)
      → c.pending ≡ none
      → (handler Request Response call reply c).2 ≡ pools
      → (handler Request Response call reply c).0.pending ≡ none
  unfolding handler unless_finished unless_closed fail close header_read some_read keep_alive finish
  handler-pools async_resolve reply c p e = ground arith
  handler-pools async_connect reply c p e = ground arith
  handler-pools async_handshake reply c p e = ground arith
  handler-pools async_write reply c p e = ground arith
  handler-pools async_read_header reply c p e = ground arith
  handler-pools async_read_some reply c p e = ground arith

  pub resolve-IsHandled :
      (refused : Option Errc) (c : Conn)
      → c.freed ≡ false
      → c.pending ≡ none
      → c.connections_iter ≡ false
      → IsHandled (resolve Request Response refused c).0
  unfolding resolve finish wait_for
  resolve-IsHandled refused c h p i = ground arith

  pub close-IsHandled :
      (c : Conn) (call : Call)
      → c.freed ≡ false
      → c.pending ≡ some call
      → IsHandled (close Request Response c).0
  unfolding close finish
  close-IsHandled c call h p = ground arith
