-- ===== src/Pool/Tests.antt =====
-- Runs of the pool of gokit/transport/pool on a server with two slots in front and one behind, and
-- the theorems at these runs.
use jkfr.Prelude.{
  ℕ, ◌+◌, ◌*◌, min, ◌≤◌, ◌≡◌, refl, true, false, none, some, [], ◌∷◌, arith, ◌==◌, if◌then◌else◌,
  length, elem, remove, insert, set, pos, ◌+ℤ◌,
}
use mathlib.Core.Option.{bind}
use jkfr.Pool.Options.{Options, foreign, second, validate, repair}
use jkfr.Pool.Client.{
  Env, Heap, new_client, is_open, connect, connect_check, connect_locked, dialed, close, destroy,
  add_ref,
}
use jkfr.Pool.Client.Dial.{Ending, connect-Ending}
use jkfr.Pool.Recycle.{
  Recycle, new_recycle, push, enqueue, evict, close_recycle, close_all, drain, get_one_client,
  first_releasable, remove_client, wake, drain_all,
}
use jkfr.Pool.Recycle.Invariant.{IsWhole}
use jkfr.Pool.Recycle.Drain.{IsDrained, drain-IsDrained}
use jkfr.Pool.Clients.{
  Clients, make_slots, new_clients, init_clients, init_slots, init_one, init_with, push_client,
  first_idle, least_ref, min_get, round_get, get, get_chosen, answer, get_one_valid_client, got,
  retire, retire_to, move_recycle, valid_count, destroy_slots, close_clients,
}
use jkfr.Pool.Clients.Keep.{IsOpen, init_clients-IsOpen}
use jkfr.Pool.Clients.New.{new_clients-IsOpen}
use jkfr.Pool.Clients.Choice.{Chosen, min_get-Chosen}
use jkfr.Pool.Clients.Get.{get_ready, get_unconnected}
use jkfr.Pool.Clients.Init.{init_clients_stuck}
use jkfr.Pool.Clients.Shut.{close_clients-all, close_clients-stops}
use jkfr.Pool.Calls.{
  Pool, made, pool_of, finish, new_pool, get_client, hand_out, put, put_bad, close_pool,
  pool_valid_count, edit,
}
use jkfr.Pool.Calls.Count.{open_slots}
use jkfr.Pool.Calls.Overlap.{
  Overlap, dials, shuts, enters, moves, Mixed, here, next, begun, dial_at, with_state,
}
use jkfr.Pool.Calls.Overlap.Counted.{valid_count_covers}
use jkfr.Pool.Calls.Overlap.Queue.{recycle_bounded}
use jkfr.Pool.Calls.Start.{new_pool_connected}
use jkfr.Pool.Calls.Uses.{refs, uses_returned}

abbrev options : Options
options = record {
  init_cap = 2;
  max_cap = 3;
  dial_timeout = second;
  idle_timeout = second;
  read_timeout = second;
  write_timeout = second;
  has_factory = true;
}

abbrev no_heap : Heap
no_heap t = new_client 0

-- Every dial succeeds, every close succeeds.
abbrev healthy : Env
healthy = record {
  now = 10 * second;
  later = 11 * second;
  dial = λ t. record { handle = some t; conn = some t; err = none };
  closing = λ t. none;
  range = λ ts. ts;
}

-- Every dial fails, and so does every close.
abbrev broken_net : Env
broken_net = record {
  now = 20 * second;
  later = 21 * second;
  dial = λ t. record { handle = none; conn = none; err = some (foreign 7) };
  closing = λ t. some (foreign 8);
  range = λ ts. ts;
}

abbrev started : Clients
started = (init_clients healthy (new_clients options no_heap 0)).0

abbrev pool : Pool
pool = pool_of started

-- What the runs below compute with.
run_all : Unit {0}
unfolding new_pool finish validate repair init_clients init_slots init_one init_with push_client
    connect connect_check connect_locked dialed close destroy add_ref new_clients make_slots
    new_recycle insert remove elem set first_idle least_ref min_get round_get get get_chosen answer
    get_one_valid_client retire retire_to move_recycle valid_count destroy_slots close_clients push
    enqueue evict close_recycle close_all drain get_one_client first_releasable remove_client wake
    drain_all dial_at get_client hand_out put put_bad close_pool pool_valid_count ◌+ℤ◌ bind
run_all = tt

pool_made : new_pool healthy options no_heap 0 ≡ made pool
unfolding run_all
pool_made = refl

slots_used : (started.cs ≡ 1 ∷ 2 ∷ 3 ∷ []) × (started.pc2c ≡ 2 ∷ 1 ∷ [])
unfolding run_all
slots_used = (refl, refl)

abbrev used : Pool
used = (put healthy (get_client healthy pool).0 (some 1) false).0

-- A bad client is retired, and the map still counts the connected slots.
used_counted :
    (pool_valid_count used ≡ 1) × (length (open_slots used.clients.heap used.clients.cs) ≡ 1)
unfolding run_all
used_counted = (refl, refl)

-- One goroutine has connected client 1; before it pushes it, another gets it and puts it back as bad,
-- which closes it; then the first pushes it.
abbrev dialing : Overlap
dialing = dial_at healthy (begun options no_heap 0) 1

dialing-Mixed : Mixed (begun options no_heap 0) dialing
dialing-Mixed = next here (dials healthy (begun options no_heap 0) 1 (λ t. refl))

abbrev shut : Overlap
shut = with_state dialing (edit dialing.clients 1 (close healthy (dialing.clients.heap 1)).0)

abbrev late : Overlap
late = record shut { clients = push_client healthy shut.clients 1; unpushed = [] }

late-Mixed : Mixed (begun options no_heap 0) late
unfolding run_all
late-Mixed = next (next dialing-Mixed (shuts healthy dialing 1)) (enters healthy shut 1 [] [] refl)

-- Now ValidCount counts a client that is not connected.
counted_late :
    (valid_count late.clients ≡ 1) × (length (open_slots late.clients.heap late.clients.cs) ≡ 0)
unfolding run_all
counted_late = (refl, refl)

valid_count_covers_example :
    length (open_slots dialing.clients.heap dialing.clients.cs)
    ≤ valid_count dialing.clients + length dialing.unpushed
valid_count_covers_example = valid_count_covers options no_heap 0 dialing dialing-Mixed

-- The client that was pushed late is put back again, and queued.
abbrev queued : Overlap
queued = with_state late (move_recycle healthy late.clients 1).0

abbrev queue : Recycle
queue = record (new_recycle options) { clients = 1 ∷ []; keys = 1 ∷ []; tokens = 1 }

recycle_bounded_example :
    length queue.clients
    ≤ queued.clients.o.max_cap
      + min (queued.clients.o.max_cap * 10) 2000
      + (if queued.in_round then 1 else 0)
unfolding run_all
recycle_bounded_example =
    recycle_bounded options no_heap 0 queued queue (next late-Mixed (moves healthy late 1)) refl

started-IsOpen : IsOpen started
started-IsOpen =
    init_clients-IsOpen healthy (λ t. refl) (new_clients options no_heap 0)
      (new_clients-IsOpen options no_heap 0)

-- Slot 1 is idle and connected, so Get takes it.
get_ready_example :
    ((get healthy started).1 ≡ got 1)
    × (is_open ((get healthy started).0.heap 1) ≡ true)
    × (elem 1 (get healthy started).0.pc2c ≡ true)
unfolding run_all
get_ready_example = get_ready healthy started 1 refl (λ t. refl) started-IsOpen refl refl

-- A pool whose server does not answer.
abbrev empty_pool : Clients
empty_pool = new_clients options no_heap 0

-- Both connected clients are in use, and the third slot cannot be dialed any more.
abbrev busy : Clients
busy = record started {
  heap = λ t. if t == 3 then started.heap 3 else add_ref (pos 1) (started.heap t);
}

get_unconnected_example :
    ((get broken_net busy).1 ≡ got 3) × (is_open ((get broken_net busy).0.heap 3) ≡ false)
unfolding run_all
get_unconnected_example =
    get_unconnected broken_net busy 3 refl (foreign 7) 1 (λ t. refl) (λ ts t. refl) refl refl refl

new_pool_connected_example : (repair options).init_cap ≤ pool_valid_count pool
new_pool_connected_example =
    new_pool_connected healthy options no_heap 0 pool (λ t. refl) (omega arith) pool_made

init_clients_stuck_example :
    init_clients healthy (init_clients broken_net empty_pool).0
    ≡ ((init_clients broken_net empty_pool).0, none)
unfolding run_all
init_clients_stuck_example = init_clients_stuck broken_net healthy empty_pool (foreign 7) refl

close_clients-all_example :
    ((q : ℕ)
      → elem q started.cs ≡ true
      → is_open ((close_clients healthy started).0.heap q) ≡ false)
    × ((q : ℕ) → elem q [] ≡ true → is_open ((close_clients healthy started).0.heap q) ≡ false)
    × ((close_clients healthy started).0.pc2c ≡ [])
unfolding run_all
close_clients-all_example =
    close_clients-all healthy started (new_recycle options) (λ ts t. refl) refl refl

-- Closing the client of slot 1 fails, and that of slot 2 keeps its connection.
close_clients-stops_example :
    ((close_clients broken_net started).0.heap 2 ≡ started.heap 2)
    × ((close_clients broken_net started).0.pc2c ≡ [])
unfolding run_all
close_clients-stops_example =
    close_clients-stops broken_net started (new_recycle options) [] (2 ∷ 3 ∷ []) 1 (foreign 8) 2
      (λ ts t. refl) refl refl refl refl refl refl

uses_returned_example :
    ((q : ℕ)
      → refs (get_client healthy pool).0.clients q
        ≡ (if 1 == q then refs started q +ℤ pos 1 else refs started q))
    × ((q : ℕ)
        → refs (put healthy (get_client healthy pool).0 (some 1) true).0.clients q ≡ refs started q)
unfolding run_all
uses_returned_example = uses_returned healthy healthy pool 1 (λ t. refl) refl refl refl

min_get-Chosen_example : Chosen busy.heap 2 busy.cs (min_get busy)
unfolding run_all
min_get-Chosen_example = min_get-Chosen busy 3 refl refl refl

-- Two clients wait to be closed, and nobody uses them.
abbrev waiting : Recycle
waiting = record (new_recycle options) { clients = 1 ∷ 2 ∷ []; keys = 2 ∷ 1 ∷ []; tokens = 2 }

waiting-IsWhole : IsWhole started.heap waiting
unfolding run_all
waiting-IsWhole = record {
  same = λ t. ground arith;
  clients_once = (refl, (refl, tt));
  keys_once = (refl, (refl, tt));
  handled = λ t m. ground arith;
}

drain-IsDrained_example :
    (s : Heap × Recycle) × (drain 3 options healthy (started.heap, waiting) ≡ some s)
    × IsDrained options healthy started.heap waiting s.0 s.1
drain-IsDrained_example =
    drain-IsDrained 3 options healthy started.heap waiting (λ ts t. refl) waiting-IsWhole
      (omega arith)

connect-Ending_example :
    Ending broken_net 3 (started.heap 3) (connect broken_net 3 (started.heap 3))
connect-Ending_example = connect-Ending broken_net 3 (started.heap 3) refl
