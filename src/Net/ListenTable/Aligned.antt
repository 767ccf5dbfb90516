-- ===== src/Net/ListenTable/Aligned.antt =====
-- The entry of a port of crates/example/src/net/listen_table.rs where coroutines listen, before and
-- after `listen`.
pub mod Packets
pub mod Accepts
use mathlib.Core.List.{map-append}
use rust_root_task_demo.Common.{
  Outcome-cases, write_in_range, write, panic, false, read_in_range, read, true, append_assoc,
  get_or-set_self, length-set, drop, set, get_or, arith, inr, inl, subst, ap, sym, refl, ◌∙◌, ret,
  ok, Result, length, map, [], List, some, none, Option, ◌++◌, ◌∷◌, ◌≡◌, ◌<◌, ℕ,
}
use rust_root_task_demo.Net.{IpEndpoint, IpListenEndpoint, Smoltcp, ListenTableEntry, Service}
use rust_root_task_demo.Net.ListenTable.{
  is_connected, entry_or_new, port_num, entry_or_new, new_entry, listen, accept, accept_from,
  accept_entry, is_connected, get_addr_tuple, incoming_tcp_packet,
}
use rust_root_task_demo.Net.ListenTable.Packet.{
  joined, entry, entry_of, blocked, packet-tcp, tcp-eq, listen-tcp, joined,
  incoming_tcp_packet-none,
}

-- A listener: its coroutine and the socket that it listens with.
pub record Listener : Type 0 where
  pub cid : ℕ
  pub handle : ℕ

abbrev pub handles : List Listener → List ℕ
handles = map (λ l. l.handle)

abbrev pub cids : List Listener → List ℕ
cids = map (λ l. l.cid)

module _ {A : Type 0} where
  -- What the entry of the port holds.
  pub data Aligned (o : Option (ListenTableEntry A)) (woken waiting : List Listener) : Type 0 where
    unused : o ≡ none → woken ≡ [] → waiting ≡ [] → Aligned o woken waiting
    used :
        (a : IpListenEndpoint A)
        → o ≡ some (entry a (handles (woken ++ waiting)) (cids waiting))
        → Aligned o woken waiting

module _ {A : Type 0} where
  joined_aligned :
      (ep : IpListenEndpoint A) (l : Listener) (o : Option (ListenTableEntry A))
      (woken waiting : List Listener)
      → Aligned o woken waiting
      → Aligned (some (joined ep o l.handle l.cid)) woken (waiting ++ (l ∷ []))
  unfolding entry_or_new new_entry
  joined_aligned ep l o woken waiting (unused free no_woken no_waiting) =
      used ep (rw (free, no_woken, no_waiting) refl)
  joined_aligned ep l o woken waiting (used a there) = used a (
      rw
        (
          there,
          ← append_assoc woken waiting (l ∷ []),
          map-append (λ (x : Listener). x.handle) (woken ++ waiting) (l ∷ []),
          map-append (λ (x : Listener). x.cid) waiting (l ∷ []),
        )
        refl)

module _ {ℓ} {F : Type ℓ} {S A : Type 0} (p : ℕ) where
  pub record IsAligned (s : Service F S A) (woken waiting : List Listener) : Type ℓ where
    pub size : length s.tcp ≡ port_num
    pub holds : Aligned (entry_of s p) woken waiting

  module _ (in_range : p < port_num) where
    pub at_port :
        (s : Service F S A) (v : ListenTableEntry A)
        → length s.tcp ≡ port_num
        → get_or (set s.tcp p (some v)) p none ≡ some v
    at_port s v size = get_or-set_self s.tcp p (some v) none (omega (arith, size, in_range))

    pub written_size :
        (s s' : Service F S A) (q : ℕ) (o : Option (ListenTableEntry A))
        → length s.tcp ≡ port_num
        → s'.tcp ≡ set s.tcp q o
        → length s'.tcp ≡ port_num
    written_size s s' q o size eq = ap length eq ∙ length-set s.tcp q o ∙ size

    -- The table after a write at the port.
    pub written_entry :
        (s s' : Service F S A) (q : ℕ) (v : ListenTableEntry A)
        → length s.tcp ≡ port_num
        → q ≡ p
        → s'.tcp ≡ set s.tcp q (some v)
        → entry_of s' p ≡ some v
    written_entry s s' q v size at eq =
        ap (λ (t : List (Option (ListenTableEntry A))). get_or t p none)
          (eq ∙ ap (λ (i : ℕ). set s.tcp i (some v)) at)
        ∙ at_port s v size

    pub listens-IsAligned :
        (s s' : Service F S A) (woken waiting : List Listener) (ep : IpListenEndpoint A)
        (l : Listener)
        → IsAligned s woken waiting
        → ep.port ≡ p
        → listen s ep l.handle l.cid ≡ ret (ok tt, s')
        → IsAligned s' woken (waiting ++ (l ∷ []))
    listens-IsAligned s s' woken waiting ep l v at eq = record {
      size = written_size s s' ep.port _ v.size writes;
      holds =
          subst (λ (o : Option (ListenTableEntry A)). Aligned o woken (waiting ++ (l ∷ [])))
            (sym there) (joined_aligned ep l (entry_of s p) woken waiting v.holds);
    }
      where
        writes : s'.tcp ≡ set s.tcp ep.port (some (joined ep (entry_of s ep.port) l.handle l.cid))
        writes = listen-tcp s s' ep l.handle l.cid (ok tt) v.size (omega (arith, in_range, at)) eq

        there : entry_of s' p ≡ some (joined ep (entry_of s p) l.handle l.cid)
        there =
            written_entry s s' ep.port _ v.size at writes
            ∙ ap (λ (i : ℕ). some (joined ep (entry_of s i) l.handle l.cid)) at
