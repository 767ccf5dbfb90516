-- ===== src/Utils/SafeRingBuffer/Concurrent/Accesses.antt =====
-- What each access of `push_safe` and `pop_safe` of crates/example/async_runtime/src/utils.rs leaves of
-- the invariant of the buffer.
use native.Mathlib.Nat.{mod-eq_of_lt, mod-add-mod}
use rust_root_task_demo.Common.{
  read_in_range, read, write_in_range, get_or, append_assoc, ap₂, write, ret, get_or-set_self,
  length-set, set, arith, [], List, subst, ap, sym, suc, ◌∙◌, ◌++◌, ◌∷◌, ◌≡◌, ◌%◌, ◌+◌, ℕ,
}
use rust_root_task_demo.Utils.Window.{window, slice-suc, cell, window-set_past, window-advance}
use rust_root_task_demo.Utils.SafeRingBuffer.{fetch_add, fetch_sub}
use rust_root_task_demo.Utils.SafeRingBuffer.Concurrent.{
  Producer, ready, checked, stored, moved_end, Consumer, waiting, got, moved_start, System,
}
use rust_root_task_demo.Utils.SafeRingBuffer.Concurrent.Invariant.{
  slot, ProducerOk, ConsumerOk, Inv, ConsumerOk-store, ConsumerOk-counted, ConsumerOk-end,
  ProducerOk-start, ProducerOk-retired,
}

module _ {ℓ} {A : Type ℓ} (d : A) (cap : ℕ) where
  abbrev pub Holds : System A → Type ℓ
  Holds s = (h : ℕ) × Inv d cap h s

  module _ (h : ℕ) (s : System A) (inv : Inv d cap h s) where
    pub with_producer :
        (p : Producer A) → ProducerOk d cap h s.ring p → Holds (record s { producer = p })
    with_producer p own = (
      h,
      record {
        slots = inv.slots;
        cap_lt = inv.cap_lt;
        head_in = inv.head_in;
        count_in = inv.count_in;
        producer_ok = own;
        consumer_ok = inv.consumer_ok;
        history = inv.history;
      },
    )

    pub with_consumer :
        (c : Consumer A) → ConsumerOk d cap h s.ring c → Holds (record s { consumer = c })
    with_consumer c own = (
      h,
      record {
        slots = inv.slots;
        cap_lt = inv.cap_lt;
        head_in = inv.head_in;
        count_in = inv.count_in;
        producer_ok = inv.producer_ok;
        consumer_ok = own;
        history = inv.history;
      },
    )

    pub producer_at : {p : Producer A} → s.producer ≡ p → ProducerOk d cap h s.ring p
    producer_at e = subst (ProducerOk d cap h s.ring) e inv.producer_ok

    pub consumer_at : {c : Consumer A} → s.consumer ≡ c → ConsumerOk d cap h s.ring c
    consumer_at e = subst (ConsumerOk d cap h s.ring) e inv.consumer_ok

    pub stored_items :
        (x : A) (items : List A)
        → s.producer ≡ checked x
        → write s.ring.items s.ring.end x ≡ ret items
        → items ≡ set s.ring.items (slot d cap h s.ring.count) x
    stored_items x items e w =
        let own = producer_at e in
        let wrote : ret (set s.ring.items s.ring.end x) ≡ ret items =
          sym (
            write_in_range s.ring.items s.ring.end x (omega (arith, own.0, inv.slots, inv.head_in)))
          ∙ w in
        let same : set s.ring.items s.ring.end x ≡ items = cc in
        sym same ∙ ap (λ (i : ℕ). set s.ring.items i x) own.0

    pub read_oldest :
        (x : A)
        → s.ring.start ≡ h
        → read s.ring.items s.ring.start ≡ ret x
        → get_or s.ring.items h d ≡ x
    read_oldest x e r =
        let value : ret (get_or s.ring.items s.ring.start d) ≡ ret x =
          sym (read_in_range s.ring.items s.ring.start d (omega (arith, e, inv.slots, inv.head_in)))
          ∙ r in
        let same : get_or s.ring.items s.ring.start d ≡ x = cc in
        ap (λ (i : ℕ). get_or s.ring.items i d) (sym e) ∙ same

    pub Holds-store :
        (x : A)
        → s.producer ≡ checked x
        → Holds (record s {
          ring = record (s.ring) { items = set s.ring.items (slot d cap h s.ring.count) x };
          producer = stored x;
        })
    Holds-store x e =
        let own = producer_at e in
        (
          h,
          record {
            slots = length-set s.ring.items (slot d cap h s.ring.count) x ∙ inv.slots;
            cap_lt = inv.cap_lt;
            head_in = inv.head_in;
            count_in = inv.count_in;
            producer_ok = (
              own.0,
              own.1,
              get_or-set_self s.ring.items (slot d cap h s.ring.count) x d
                  (omega (arith, inv.slots, inv.head_in)),
            );
            consumer_ok =
                ConsumerOk-store d cap h s.ring x s.consumer inv.head_in own.1 inv.consumer_ok;
            history =
                inv.history
                ∙ ap (λ (xs : List A). s.received ++ xs)
                    (sym (window-set_past d cap s.ring.items h s.ring.count x inv.head_in own.1));
          },
        )

    pub Holds-move_end :
        (x : A)
        → s.producer ≡ stored x
        → Holds (record s {
          ring = record (s.ring) { end = (s.ring.end + 1) % cap };
          producer = moved_end x;
        })
    Holds-move_end x e =
        let own = producer_at e in
        (
          h,
          record {
            slots = inv.slots;
            cap_lt = inv.cap_lt;
            head_in = inv.head_in;
            count_in = inv.count_in;
            producer_ok = (ap (λ (i : ℕ). (i + 1) % cap) own.0, own.1, own.2);
            consumer_ok =
                ConsumerOk-end d cap h s.ring ((s.ring.end + 1) % cap) s.consumer inv.consumer_ok;
            history = inv.history;
          },
        )

    pub Holds-publish :
        (x : A)
        → s.producer ≡ moved_end x
        → Holds (record s {
          ring = record (s.ring) { count = fetch_add s.ring.count };
          producer = ready;
          sent = s.sent ++ (x ∷ []);
        })
    Holds-publish x e =
        let own = producer_at e in
        let counted : fetch_add s.ring.count ≡ suc s.ring.count =
          omega (arith, own.1, inv.cap_lt) in
        (
          h,
          record {
            slots = inv.slots;
            cap_lt = inv.cap_lt;
            head_in = inv.head_in;
            count_in = omega (arith, counted, own.1);
            producer_ok = (
              own.0
                  ∙ mod-add-mod (h + s.ring.count) cap 1
                  ∙ ap (λ (k : ℕ). k % cap) (omega (arith, counted)),
              tt,
            );
            consumer_ok =
                ConsumerOk-counted d cap h s.ring (fetch_add s.ring.count) s.consumer
                  (omega (arith, counted)) inv.consumer_ok;
            history =
                ap (λ (xs : List A). xs ++ (x ∷ [])) inv.history
                ∙ append_assoc s.received (window d cap s.ring.items h s.ring.count) (x ∷ [])
                ∙ ap (λ (xs : List A). s.received ++ xs)
                    (ap (λ (y : A). window d cap s.ring.items h s.ring.count ++ (y ∷ []))
                        (sym own.2)
                      ∙ sym (slice-suc (cell d cap s.ring.items) h s.ring.count)
                      ∙ ap (window d cap s.ring.items h) (sym counted));
          },
        )

    pub Holds-move_start :
        (x : A)
        → s.consumer ≡ got x
        → Holds (record s {
          ring = record (s.ring) { start = (s.ring.start + 1) % cap };
          consumer = moved_start x;
        })
    Holds-move_start x e =
        let own = consumer_at e in
        (
          h,
          record {
            slots = inv.slots;
            cap_lt = inv.cap_lt;
            head_in = inv.head_in;
            count_in = inv.count_in;
            producer_ok =
                ProducerOk-start d cap h s.ring ((s.ring.start + 1) % cap) s.producer
                  inv.producer_ok;
            consumer_ok = (ap (λ (i : ℕ). (i + 1) % cap) own.0, own.1, own.2);
            history = inv.history;
          },
        )

    oldest :
        (x : A) (n : ℕ)
        → s.ring.count ≡ suc n
        → get_or s.ring.items h d ≡ x
        → window d cap s.ring.items h s.ring.count ≡ x ∷ window d cap s.ring.items ((h + 1) % cap) n
    oldest x n e front =
        ap (window d cap s.ring.items h) e
        ∙ ap₂ ◌∷◌ (ap (λ (i : ℕ). get_or s.ring.items i d) (mod-eq_of_lt inv.head_in) ∙ front)
            (window-advance d cap s.ring.items h n)

    pub Holds-retire :
        (x : A)
        → s.consumer ≡ moved_start x
        → Holds (record s {
          ring = record (s.ring) { count = fetch_sub s.ring.count };
          consumer = waiting;
          received = s.received ++ (x ∷ []);
        })
    Holds-retire x e =
        let own = consumer_at e in
        let less : s.ring.count ≡ suc (fetch_sub s.ring.count) =
          omega (arith, own.1, inv.count_in, inv.cap_lt) in
        (
          (h + 1) % cap,
          record {
            slots = inv.slots;
            cap_lt = inv.cap_lt;
            head_in = omega (arith, inv.head_in);
            count_in = omega (arith, less, inv.count_in);
            producer_ok =
                ProducerOk-retired d cap h s.ring (fetch_sub s.ring.count) s.producer less
                  inv.producer_ok;
            consumer_ok = (own.0, tt);
            history =
                inv.history
                ∙ ap (λ (xs : List A). s.received ++ xs)
                    (oldest x (fetch_sub s.ring.count) less own.2)
                ∙ sym (
                    append_assoc s.received (x ∷ [])
                      (window d cap s.ring.items ((h + 1) % cap) (fetch_sub s.ring.count)));
          },
        )
