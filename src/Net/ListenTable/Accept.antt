-- ===== src/Net/ListenTable/Accept.antt =====
-- One port of crates/example/src/net/listen_table.rs whose listeners are coroutines: they listen,
-- packets wake them, and they accept in the order in which they were woken.
use rust_root_task_demo.Common.{
  ret, ok, Result, length, [], List, some, none, Option, true, subst, sym, refl, ◌∙◌, ◌++◌, ◌∷◌,
  ◌≡◌, ◌<◌, ℕ,
}
use rust_root_task_demo.Net.{IpEndpoint, IpListenEndpoint, Smoltcp, ListenTableEntry, Service}
use rust_root_task_demo.Net.ListenTable.{
  port_num, listen, accept, accept_from, accept_entry, is_connected, get_addr_tuple,
  incoming_tcp_packet,
}
use rust_root_task_demo.Net.ListenTable.Packet.{entry_of, blocked}
use rust_root_task_demo.Net.ListenTable.Aligned.{
  Listener, handles, cids, Aligned, unused, IsAligned, listens-IsAligned,
}
use rust_root_task_demo.Net.ListenTable.Aligned.Packets.{wakes-IsAligned, passes-IsAligned}
use rust_root_task_demo.Net.ListenTable.Aligned.Accepts.{
  accepts-IsAligned, first_in_front, writes, taken,
}

module _ {ℓ} {F : Type ℓ} {S K A : Type 0} (net : Smoltcp S K A) (p : ℕ) where
  -- The service, the listeners woken that have not accepted yet, the first woken first, and those
  -- that wait, the first to listen first. A packet for the port that finds a coroutine waiting and
  -- is not dropped wakes the first.
  pub data Reachable : Service F S A → List Listener → List Listener → Type ℓ where
    starts : (s : Service F S A) → length s.tcp ≡ port_num → entry_of s p ≡ none → Reachable s [] []
    listens :
        (s s' : Service F S A) (woken waiting : List Listener) (ep : IpListenEndpoint A)
        (l : Listener)
        → Reachable s woken waiting
        → ep.port ≡ p
        → listen s ep l.handle l.cid ≡ ret (ok tt, s')
        → Reachable s' woken (waiting ++ (l ∷ []))
    others :
        (s s' : Service F S A) (woken waiting : List Listener)
        → Reachable s woken waiting
        → length s'.tcp ≡ length s.tcp
        → entry_of s' p ≡ entry_of s p
        → Reachable s' woken waiting
    wakes :
        (s s' : Service F S A) (woken waiting : List Listener) (l : Listener) (dst : IpEndpoint A)
        → Reachable s woken (l ∷ waiting)
        → dst.port ≡ p
        → incoming_tcp_packet net s dst ≡ ret s'
        → length (blocked (entry_of s' p)) < length (blocked (entry_of s p))
        → Reachable s' (woken ++ (l ∷ [])) waiting
    passes :
        (s s' : Service F S A) (woken waiting : List Listener) (dst : IpEndpoint A)
        → Reachable s woken waiting
        → dst.port ≡ p
        → incoming_tcp_packet net s dst ≡ ret s'
        → length (blocked (entry_of s' p)) ≡ length (blocked (entry_of s p))
        → Reachable s' woken waiting
    accepts :
        (s s' : Service F S A) (woken waiting : List Listener) (l : Listener)
        (r : Result (ℕ × IpEndpoint A × IpEndpoint A))
        → Reachable s (l ∷ woken) waiting
        → accept net s p ≡ ret (r, s')
        → Reachable s' woken waiting

  module _ (in_range : p < port_num) where
    -- The invariant in every state that is reached.
    Reachable-IsAligned :
        (s : Service F S A) (woken waiting : List Listener)
        → Reachable s woken waiting
        → IsAligned p s woken waiting
    Reachable-IsAligned s _ _ (starts _ size free) = record {
      size = size;
      holds = unused free refl refl;
    }
    Reachable-IsAligned s' woken _ (listens s _ _ waiting ep l before at eq) =
        listens-IsAligned p in_range s s' woken waiting ep l
          (Reachable-IsAligned s woken waiting before) at eq
    Reachable-IsAligned s' woken waiting (others s _ _ _ before size same) =
        let v = Reachable-IsAligned s woken waiting before in
        record {
          size = size ∙ v.size;
          holds =
              subst (λ (o : Option (ListenTableEntry A)). Aligned o woken waiting) (sym same)
                v.holds;
        }
    Reachable-IsAligned s' _ waiting (wakes s _ woken _ l dst before at eq fewer) =
        wakes-IsAligned net p in_range s s' woken waiting l dst
          (Reachable-IsAligned s woken (l ∷ waiting) before) at eq fewer
    Reachable-IsAligned s' woken waiting (passes s _ _ _ dst before at eq same) =
        passes-IsAligned net p in_range s s' woken waiting dst
          (Reachable-IsAligned s woken waiting before) at eq same
    Reachable-IsAligned s' woken waiting (accepts s _ _ _ l r before eq) =
        accepts-IsAligned net p in_range s s' l woken waiting r
          (Reachable-IsAligned s (l ∷ woken) waiting before) eq

    -- At a port below 65536 where only coroutines listen, and accept in the order in which they are
    -- woken: the first of those woken that have not accepted yet finds, if its socket is established
    -- and has both endpoints, exactly the socket that it listened with, with these endpoints,
    -- and its thread is as it was.
    pub accept_own :
        (s : Service F S A) (l : Listener) (woken waiting : List Listener)
        (local remote : IpEndpoint A)
        → Reachable s (l ∷ woken) waiting
        → net.is_established s.sockets l.handle ≡ ret true
        → net.local_endpoint s.sockets l.handle ≡ ret (some local)
        → net.remote_endpoint s.sockets l.handle ≡ ret (some remote)
        → (s' : Service F S A) × (accept net s p ≡ ret (ok (l.handle, local, remote), s'))
          × (s'.world ≡ s.world)
          × Reachable s' woken waiting
    unfolding accept accept_entry accept_from is_connected get_addr_tuple
    accept_own s l woken waiting local remote before up at_local at_remote =
        let v = Reachable-IsAligned s (l ∷ woken) waiting before in
        let (a, front) = first_in_front net p in_range s l woken waiting v in
        let w = writes net p in_range s a (handles (woken ++ waiting)) (cids waiting) v.size in
        let returns : accept net s p
            ≡ ret (
              ok (l.handle, local, remote),
              taken net p in_range s a (handles (woken ++ waiting)) (cids waiting),
            ) =
          rw (front, w, up, at_local, at_remote) refl in
        (
          taken net p in_range s a (handles (woken ++ waiting)) (cids waiting),
          returns,
          refl,
          accepts s (taken net p in_range s a (handles (woken ++ waiting)) (cids waiting)) woken
              waiting l (ok (l.handle, local, remote)) before returns,
        )
