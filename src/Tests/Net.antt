-- ===== src/Tests/Net.antt =====
-- The network service of crates/example/src/net on concrete values.
use rust_root_task_demo.Common.{
  ◌+◌, Outcome, get_or-replicate, length-replicate, length, arith, Option, Bool, ◌<◌, ret, ok,
  replicate, set, [], some, none, false, true, refl, ◌==◌, ◌∷◌, ◌≡◌, ℕ,
}
use rust_root_task_demo.Utils.SafeRingBuffer
use rust_root_task_demo.Utils.SafeRingBuffer.Laws
use rust_root_task_demo.Net.ListenTable.Packet
use rust_root_task_demo.AsyncLib.Calls.{IsQueue, items_of}
use rust_root_task_demo.Net.ListenTable.Accept.{Reachable, starts, listens, wakes, accept_own}
use rust_root_task_demo.Net.Requests
use rust_root_task_demo.Net.Requests.Polling.{Polls, iface_polls_lem}
use rust_root_task_demo.Net.Requests.Posting.{Replies, post_reply-Replies}
use rust_root_task_demo.Net.Connection
use rust_root_task_demo.Net.Connection.{for_item}
use rust_root_task_demo.Net.Connection.Accepted.{Accepts, tcp_accept_resumed-Accepts}
use rust_root_task_demo.Utils.IndexAllocator
use rust_root_task_demo.Coroutine.{max_cid_num}
use rust_root_task_demo.Executor
use rust_root_task_demo.Executor.{Executor}
use rust_root_task_demo.NewBuffer
use rust_root_task_demo.NewBuffer.{NewBuffer, IpcItem, max_item_num, new_item}
use rust_root_task_demo.AsyncLib
use rust_root_task_demo.AsyncLib.{World, AsyncArgs, lookup}
use rust_root_task_demo.Net.{IpEndpoint, IpListenEndpoint, Smoltcp, ListenTableEntry, Service}
use rust_root_task_demo.Net.ListenTable
use rust_root_task_demo.Net.ListenTable.{port_num}
use rust_root_task_demo.Net.ListenTable.Packet.{entry}
use rust_root_task_demo.Net.ListenTable.Aligned.{Listener}

-- A stack with one socket, 3, which is connected. Addresses are numbers.
abbrev here : IpEndpoint ℕ
here = record { addr = 1; port = 7 }

abbrev there : IpEndpoint ℕ
there = record { addr = 2; port = 9 }

abbrev stack : Smoltcp ℕ ℕ ℕ
stack = record {
  same_addr = λ a b. a == b;
  listening = λ rx tx port. ok 0;
  add = λ s k. (3, s);
  remove = λ s h. ret s;
  is_established = λ s h. ret true;
  local_endpoint = λ s h. ret (some here);
  remote_endpoint = λ s h. ret (some there);
  can_send = λ s h. ret true;
  can_recv = λ s h. ret false;
  send_slice = λ s h bytes. ret (ok 0, s);
  recv_slice = λ s h bytes. ret (ok 0, bytes, s);
}

abbrev running_2 : Executor ℕ
running_2 = record (Executor.new) { current = some 2 }

abbrev service : Service ℕ ℕ ℕ
service = record {
  world = AsyncLib.start running_2 ((4096, NewBuffer.new) ∷ []);
  cids = IndexAllocator.new max_cid_num;
  tcp = ListenTable.new ℕ;
  sockets = 0;
  socket_2_cid = [];
  net_device_poller_cid = 65535;
  poll_cnt = 4;
  net_poll_cnt = 0;
  poll_eps = [];
  notices = [];
  memory = [];
}

abbrev client_args : AsyncArgs
client_args = record (AsyncLib.new_args) { ipc_new_buffer = some 4096; server_sender_id = some 5 }

-- Coroutine 2 listens on port 7 with socket 3.
abbrev listener : Listener
listener = record { cid = 2; handle = 3 }

abbrev everywhere : IpListenEndpoint ℕ
everywhere = record { addr = none; port = 7 }

abbrev listening : Service ℕ ℕ ℕ
listening = record service {
  tcp = set (ListenTable.new ℕ) 7 (some (entry everywhere (3 ∷ []) (2 ∷ [])));
}

listens-eq : ListenTable.listen service everywhere 3 2 ≡ ret (ok tt, listening)
unfolding ListenTable.listen ListenTable.new ListenTable.entry_or_new ListenTable.new_entry
    replicate
listens-eq = refl

-- A packet for the port wakes it.
abbrev woken : Service ℕ ℕ ℕ
woken = record listening { tcp = set listening.tcp 7 (some (entry everywhere (3 ∷ []) [])) }

wakes-eq : ListenTable.incoming_tcp_packet stack listening here ≡ ret woken
unfolding ListenTable.incoming_tcp_packet ListenTable.packet_for ListenTable.can_accept
    ListenTable.wake_blocked ListenTable.notify_blocked ListenTable.new replicate Executor.wake
    Executor.wake_task Executor.new AsyncLib.start
wakes-eq = refl

in_front : Reachable stack 7 woken (listener ∷ []) []
in_front =
    wakes listening woken [] [] listener here
      (listens service listening [] [] everywhere listener
        (starts service
          (unfold ListenTable.new in
            length-replicate {A = Option (ListenTableEntry ℕ)} port_num none)
          (unfold ListenTable.new in
            get_or-replicate {A = Option (ListenTableEntry ℕ)} port_num 7 none))
        refl listens-eq)
      refl wakes-eq (unfold ListenTable.new replicate Packet.blocked in omega arith)

accept_own_example :
    (s' : Service ℕ ℕ ℕ) × (ListenTable.accept stack woken 7 ≡ ret (ok (3, here, there), s'))
    × (s'.world ≡ woken.world)
    × Reachable stack 7 s' [] []
accept_own_example =
    accept_own stack 7 (omega arith) woken listener [] [] here there in_front refl refl refl

pub empty-IsQueue : IsQueue NewBuffer.new.res_items
empty-IsQueue =
    unfold NewBuffer.new NewBuffer.new_queue in
    Laws.new-IsValid new_item max_item_num (omega arith) (omega arith)

pub no_items : length (items_of NewBuffer.new.res_items) < max_item_num
no_items =
    unfold NewBuffer.new NewBuffer.new_queue SafeRingBuffer.new in
    omega (
      arith,
      Laws.length-contents new_item max_item_num NewBuffer.new.res_items.buffer empty-IsQueue,
    )

tcp_accept_resumed-Accepts_example :
    (s' : Service ℕ ℕ ℕ) × (Connection.tcp_accept_resumed stack client_args 8 7 3 woken
      ≡ ret (for_item, s'))
    × Accepts stack 7 (omega arith) woken listener [] [] 4096 8 NewBuffer.new s'
tcp_accept_resumed-Accepts_example =
    tcp_accept_resumed-Accepts stack 7 (omega arith) woken client_args listener [] [] here there
      4096 5 8 NewBuffer.new in_front refl refl refl (unfold AsyncLib.start in refl)
      (unfold AsyncLib.start in omega (arith, length-replicate {A = Option IpcItem} 2048 none)) refl
      refl (unfold AsyncLib.start lookup in refl) empty-IsQueue no_items

post_reply-Replies_example :
    Replies service.world 4096 5 new_item NewBuffer.new
      (Requests.post_reply service.world client_args new_item)
post_reply-Replies_example =
    post_reply-Replies service.world client_args 4096 5 new_item NewBuffer.new empty-IsQueue refl
      refl (unfold AsyncLib.start lookup in refl)

-- A poll counts itself in the sockets.
abbrev counting_poll : Service ℕ ℕ ℕ → Outcome (Bool × Service ℕ ℕ ℕ)
counting_poll s = ret (true, record s { sockets = s.sockets + 1 })

iface_polls_lem_example : Polls counting_poll (λ k. k) 17 service
iface_polls_lem_example =
    iface_polls_lem counting_poll (λ k. k)
      (λ s. record {
        ans = true;
        after = record s { sockets = s.sockets + 1 };
        returns = refl;
        once = refl;
        same_cnt = refl;
      })
      17 service (omega arith) (omega arith)
