-- ===== src/Net/Http/Client/Tests.antt =====
-- A request whose response comes in one piece, and a second one on the connection that it leaves.
use trunk.Prelude.{count, ◌≡◌, refl, ℕ, [], ◌∷◌, none, some, Bool, true, false}
use trunk.Prelude.Result.{timed_out}
use trunk.Net.Http.Client.{
  http, ConnectionKey, Call, Reply, Connection, Client, call_back, new_client, find, put,
  same_connection, same_protocol, same_host, request, request_new, resolve, complete, expire,
  stepped, pooled, released, handler, unless_finished, unless_closed, header_read, some_read,
  handshake, write, wait_for, keep_alive, finish, async_resolve, async_connect, async_write,
  async_read_header, async_read_some,
}
use trunk.Net.Http.Client.Steps.{Runs, start, requested, completed}
use trunk.Net.Http.Client.Counts.{calls, Runs-answered}
use trunk.Net.Http.Client.Freed.{request-pooled}
use trunk.Net.Http.Client.Timers.{Runs-timer}

abbrev key : ConnectionKey
key = record { protocol = http; host = 97 ∷ 98 ∷ []; port = 80 }

-- Its request is `5`, and its callback `7`.
abbrev waits : Call → Bool → Connection ℕ ℕ
waits call timer = record {
  key = key;
  request = some 5;
  progress_callback = none;
  callback = some 7;
  connections_iter = false;
  stream = true;
  timer = timer;
  pending = some call;
  freed = false;
}

abbrev client : Call → Bool → Client ℕ ℕ
client call timer = record { connections = []; objects = waits call timer ∷ [] }

abbrev reply : Reply ℕ ℕ
reply = record { ec = none; is_done = true; response = 9 }

abbrev answered : Client ℕ ℕ
answered = record {
  connections = (key, 0 ∷ []) ∷ [];
  objects =
      record {
        key = key;
        request = none;
        progress_callback = none;
        callback = none;
        connections_iter = true;
        stream = true;
        timer = false;
        pending = none;
        freed = true;
      }
      ∷ [];
}

resolving : Runs ℕ ℕ (client async_resolve true) (7 ∷ []) []
unfolding request find new_client request_new resolve released wait_for
resolving =
    requested (new_client ℕ ℕ) (client async_resolve true) key none 5 none 7 [] [] [] start refl

connecting : Runs ℕ ℕ (client async_connect true) (7 ∷ []) []
unfolding complete stepped pooled released handler unless_finished wait_for
connecting =
    completed (client async_resolve true) 0 (waits async_resolve true) async_resolve reply (7 ∷ [])
      [] resolving refl refl

writing : Runs ℕ ℕ (client async_write true) (7 ∷ []) []
unfolding complete stepped pooled released handler unless_finished handshake write keep_alive
    wait_for
writing =
    completed (client async_connect true) 0 (waits async_connect true) async_connect reply (7 ∷ [])
      [] connecting refl refl

reading_header : Runs ℕ ℕ (client async_read_header true) (7 ∷ []) []
unfolding complete stepped pooled released handler unless_closed wait_for
reading_header =
    completed (client async_write true) 0 (waits async_write true) async_write reply (7 ∷ []) []
      writing refl refl

reading : Runs ℕ ℕ (client async_read_some true) (7 ∷ []) []
unfolding complete stepped pooled released handler header_read unless_closed keep_alive wait_for
reading =
    completed (client async_read_header true) 0 (waits async_read_header true) async_read_header
      reply (7 ∷ []) [] reading_header refl refl

done : Runs ℕ ℕ answered (7 ∷ []) (call_back 7 none (some 9) ∷ [])
unfolding complete stepped pooled released handler some_read finish keep_alive wait_for find put
done =
    completed (client async_read_some true) 0 (waits async_read_some true) async_read_some reply
      (7 ∷ []) [] reading refl refl

request-pooled_example : request ℕ ℕ answered key none 6 none 8 ≡ none
unfolding find same_connection same_protocol same_host
request-pooled_example =
    request-pooled ℕ ℕ answered (7 ∷ []) (call_back 7 none (some 9) ∷ []) key 0 [] none 6 none 8
      done refl

Runs-answered_example : calls ℕ ℕ 7 (call_back 7 none (some 9) ∷ []) ≡ count 7 (7 ∷ [])
Runs-answered_example =
    Runs-answered ℕ ℕ answered (7 ∷ []) (call_back 7 none (some 9) ∷ []) 7 done (refl, tt)

Runs-timer_example :
    ((call : Call) × ((waits async_connect true).pending ≡ some call))
    × (true ≡ true)
    × ((expire ℕ ℕ (client async_connect true) 0 (waits async_connect true)).1
        ≡ call_back 7 (some timed_out) none ∷ [])
Runs-timer_example =
    Runs-timer ℕ ℕ (client async_connect true) (7 ∷ []) [] 0 (waits async_connect true) 7 connecting
      refl refl
