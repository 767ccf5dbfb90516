-- ===== src/Net/Connection/Accepted.antt =====
-- The connections that `tcp_accept_coroutine` of crates/example/src/net/mod.rs accepts, through the
-- table of listeners, the queue of replies and the user interrupt to the client.
use rust_root_task_demo.Common.{
  write_in_range, read_in_range, Outcome, ok, set, get_or, ==_self, arith, none, ret, length, [],
  List, some, true, ap, refl, ◌∙◌, ◌++◌, ◌∷◌, ◌≡◌, ◌<◌, ℕ,
}
use rust_root_task_demo.Executor.{Executor}
use rust_root_task_demo.NewBuffer.{NewBuffer, max_item_num}
use rust_root_task_demo.AsyncLib.{World, AsyncArgs, lookup, yield_resumed, coroutine_get_current}
use rust_root_task_demo.AsyncLib.Calls.{IsQueue, items_of}
use rust_root_task_demo.Net.{IpEndpoint, Smoltcp, Service}
use rust_root_task_demo.Net.Message.{listen_reply}
use rust_root_task_demo.Net.ListenTable
use rust_root_task_demo.Net.ListenTable.{port_num}
use rust_root_task_demo.Net.ListenTable.Aligned.{Listener}
use rust_root_task_demo.Net.ListenTable.Accept.{Reachable, others, accept_own}
use rust_root_task_demo.Net.Requests.{post_reply}
use rust_root_task_demo.Net.Requests.Posting.{Replies, full, replied, post_reply-Replies}
use rust_root_task_demo.Net.Connection.{for_item, tcp_accept_resumed, accepted, tcp_recv_coroutine}

module _ {ℓ} {F : Type ℓ} {S K A : Type 0} (net : Smoltcp S K A) (p : ℕ)
    (in_range : p < port_num) where
  -- What accepting a connection for the request of `cid` leaves: the reply with the listener's own
  -- socket stands last among the replies, and its coroutine is registered for that socket.
  pub record Accepts (s : Service F S A) (l : Listener) (woken waiting : List Listener)
      (ptr cid : ℕ) (b : NewBuffer) (s' : Service F S A) : Type ℓ where
    pub registered : lookup l.handle s'.socket_2_cid ≡ some l.cid
    pub reply :
        (b' : NewBuffer) × (lookup ptr s'.world.buffers ≡ some b')
        × (items_of b'.res_items ≡ items_of b.res_items ++ (listen_reply cid l.handle ∷ []))
        × (b'.recv_reply_status ≡ true)
    pub reached : Reachable net p s' woken waiting

  -- The thread after its coroutine `c` has taken the value that it was woken with.
  abbrev taken : World F → ℕ → World F
  taken w c = record w { immediate_value = set w.immediate_value c none }

  yields :
      (w : World F) (c : ℕ)
      → w.executor.current ≡ some c
      → c < length w.immediate_value
      → yield_resumed w ≡ ret (get_or w.immediate_value c none, taken w c)
  unfolding yield_resumed coroutine_get_current
  yields w c current slot =
      rw
        (
          current,
          read_in_range w.immediate_value c none slot,
          write_in_range w.immediate_value c none slot,
        )
        refl

  accepted_with :
      (s s₂ : Service F S A) (args : AsyncArgs) (l : Listener) (woken waiting : List Listener)
      (local remote : IpEndpoint A) (ptr sender cid : ℕ) (b : NewBuffer)
      → yield_resumed s.world ≡ ret (get_or s.world.immediate_value l.cid none, taken s.world l.cid)
      → ListenTable.accept net (record s { world = taken s.world l.cid }) p
        ≡ ret (ok (l.handle, local, remote), s₂)
      → Reachable net p s₂ woken waiting
      → s₂.world.executor.current ≡ some l.cid
      → length (items_of b.res_items) < max_item_num
      → {o : Outcome (World F)} → Replies s₂.world ptr sender (listen_reply cid l.handle) b o
      → post_reply s₂.world args (listen_reply cid l.handle) ≡ o
      → (s' : Service F S A) × (tcp_accept_resumed net args cid p l.handle s ≡ ret (for_item, s'))
        × Accepts s l woken waiting ptr cid b s'
  unfolding tcp_accept_resumed accepted tcp_recv_coroutine lookup coroutine_get_current
  accepted_with s s₂ args l woken waiting local remote ptr sender cid b yield takes after current
        room (full none_left) eq =
      absurd (omega (arith, room, none_left))
  accepted_with s s₂ args l woken waiting local remote ptr sender cid b yield takes after current
        room (replied b' w' there held valid told same told_by same_executor) eq =
      let current' : w'.executor.current ≡ some l.cid =
        ap (λ (e : Executor F). e.current) same_executor ∙ current in
      let s' : Service F S A = record s₂ {
        world = w';
        socket_2_cid = (l.handle, l.cid) ∷ s₂.socket_2_cid;
      } in
      (
        s',
        rw (yield, takes, eq, current') refl,
        record {
          registered = rw (==_self l.handle) refl;
          reply = (b', there, held, told);
          reached = others s₂ s' woken waiting after refl refl;
        },
      )

  -- A coroutine that listened on a port below 65536 with its own socket, and is the first of those
  -- woken there that have not accepted yet, is resumed: if its socket is established and has both
  -- endpoints, and the client's queue of replies is valid and not full, it returns to wait for an
  -- item, and its reply and its registration name the socket that it listened with.
  pub tcp_accept_resumed-Accepts :
      (s : Service F S A) (args : AsyncArgs) (l : Listener) (woken waiting : List Listener)
      (local remote : IpEndpoint A) (ptr sender cid : ℕ) (b : NewBuffer)
      → Reachable net p s (l ∷ woken) waiting
      → net.is_established s.sockets l.handle ≡ ret true
      → net.local_endpoint s.sockets l.handle ≡ ret (some local)
      → net.remote_endpoint s.sockets l.handle ≡ ret (some remote)
      → s.world.executor.current ≡ some l.cid
      → l.cid < length s.world.immediate_value
      → args.ipc_new_buffer ≡ some ptr
      → args.server_sender_id ≡ some sender
      → lookup ptr s.world.buffers ≡ some b
      → IsQueue b.res_items
      → length (items_of b.res_items) < max_item_num
      → (s' : Service F S A) × (tcp_accept_resumed net args cid p l.handle s ≡ ret (for_item, s'))
        × Accepts s l woken waiting ptr cid b s'
  tcp_accept_resumed-Accepts s args l woken waiting local remote ptr sender cid b before up at_local
        at_remote current slot at to found v room =
      let w₁ = taken s.world l.cid in
      let s₁ = record s { world = w₁ } in
      let (s₂, takes, same_world, after) =
        accept_own net p in_range s₁ l woken waiting local remote
          (others s s₁ (l ∷ woken) waiting before refl refl) up at_local at_remote in
      let found₂ : lookup ptr s₂.world.buffers ≡ some b =
        ap (λ (w : World F). lookup ptr w.buffers) same_world ∙ found in
      let current₂ : s₂.world.executor.current ≡ some l.cid =
        ap (λ (w : World F). w.executor.current) same_world ∙ current in
      accepted_with s s₂ args l woken waiting local remote ptr sender cid b
        (yields s.world l.cid current slot) takes after current₂ room
        (post_reply-Replies s₂.world args ptr sender (listen_reply cid l.handle) b v at to found₂)
        refl
