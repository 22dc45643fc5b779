-- ===== src/MpscQueue/Alone.antt =====
-- The threads that consume are one consumer, and the drop of a queue.
use mathlib.Core.Path.{subst}
use mathlib.Core.Option.{Option, none, some}
use wasm_kernel.Base.{
  ℕ, zero, suc, ◌==◌, ◌<◌, ◌+◌, ◌≡◌, ◌≢◌, ◌⊎◌, inl, inr, refl, sym, ap, ◌∙◌, Bool, true, false,
  Bool-cases, ==_iff, update, if◌then◌else◌, List, [], ◌∷◌, ◌++◌, length, arith,
}
use wasm_kernel.MpscQueue.Queue.{
  MpscQueue, Consumer, idle, World, Step, enqueue, link_node, begin, load, check, enqueue_stub,
  link_stub, reload, Reach, here, next,
}
use wasm_kernel.MpscQueue.Chain.{Chain, items}
use wasm_kernel.MpscQueue.Fifo.{Reach-Fifo}
use wasm_kernel.MpscQueue.Consumers.{
  drop_loop, drop_queue, is_producer, placed, Threads, Move, lock_consumer, busy, produce, consume,
  unlock_consumer, Run, start, onward,
}

-- A producer does not care where the consumer is.
anywhere :
    (w w' : World) (c : Consumer) (step : Step w w')
    → is_producer step ≡ true
    → Step (placed w c) (placed w' c)
anywhere w w' c (enqueue i s e f) p = enqueue i s e (ap (λ z. placed z c) f)
anywhere w w' c (link_node i q s e f) p = link_node i q s e (ap (λ z. placed z c) f)
anywhere w w' c (begin e f) p = cc
anywhere w w' c (load node e f) p = cc
anywhere w w' c (check node e f) p = cc
anywhere w w' c (enqueue_stub node e f) p = cc
anywhere w w' c (link_stub node q e f g) p = cc
anywhere w w' c (reload node e f) p = cc

-- The thread that has the consumer's side, and where it is.
abbrev place_of : Option (ℕ × Consumer) → Consumer
place_of none = idle
place_of (some (t, c)) = c

abbrev is_held : Option (ℕ × Consumer) → Bool
is_held none = false
is_held (some x) = true

abbrev Outside : Option (ℕ × Consumer) → (ℕ → Option Consumer) → Type 0
Outside none place = (t : ℕ) → place t ≡ none
Outside (some (u, c)) place = (place u ≡ some c) × ((t : ℕ) → t ≢ u → place t ≡ none)

record Alone (stub : ℕ) (s : Threads) : Type 0 where
  holder : Option (ℕ × Consumer)
  flag : s.has_consumer ≡ is_held holder
  outside : Outside holder s.place
  reached : Reach stub (placed s.world (place_of holder))

-- Who has a place is the holder.
is_holder :
    (holder : Option (ℕ × Consumer)) (place : ℕ → Option Consumer) (t : ℕ) (c : Consumer)
    → Outside holder place
    → place t ≡ some c
    → holder ≡ some (t, c)
is_holder none place t c o e = let f = o t in cc
is_holder (some (u, d)) place t c o e = elim (Bool-cases (u == t)) [
  | inl f ↦ let g = (==_iff u t).0 f in let h = o.0 in cc
  | inr f ↦ let g = o.1 t (ground arith) in cc
]

no_holder : (holder : Option (ℕ × Consumer)) → is_held holder ≡ false → holder ≡ none
no_holder none e = refl
no_holder (some x) e = cc

update_other :
    (place : ℕ → Option Consumer) (t u : ℕ) (c : Option Consumer)
    → u ≢ t
    → place u ≡ none
    → update place t c u ≡ none
update_other place t u c n e = ground arith

update_own : (place : ℕ → Option Consumer) (t : ℕ) (c : Option Consumer) → update place t c t ≡ c
update_own place t c = ground arith

-- All other threads than the holder are outside.
not_inside :
    (holder : Option (ℕ × Consumer)) (place : ℕ → Option Consumer) (t : ℕ) (c : Consumer)
    → Outside holder place
    → holder ≡ some (t, c)
    → (u : ℕ) → u ≢ t
    → place u ≡ none
not_inside holder place t c o e = (subst (λ h. Outside h place) e o).1

Move-Alone : (stub : ℕ) (s s' : Threads) → Move s s' → Alone stub s → Alone stub s'
Move-Alone stub s s' (lock_consumer t e f g) v =
    let free = no_holder v.holder (sym v.flag ∙ f) in
    let o : (u : ℕ) → s.place u ≡ none = subst (λ h. Outside h s.place) free v.outside in
    subst (Alone stub) (sym g) (record {
      holder = some (t, idle);
      flag = refl;
      outside =
          (update_own s.place t (some idle), λ u n. update_other s.place t u (some idle) n (o u));
      reached = subst (λ h. Reach stub (placed s.world (place_of h))) free v.reached;
    })
Move-Alone stub s s' (busy t e f g) v = subst (Alone stub) (sym g) v
Move-Alone stub s s' (produce w step p g) v = subst (Alone stub) (sym g) (record {
  holder = v.holder;
  flag = v.flag;
  outside = v.outside;
  reached = next v.reached (anywhere (placed s.world idle) w (place_of v.holder) step p);
})
Move-Alone stub s s' (consume t c w step e p g) v =
    let same = is_holder v.holder s.place t c v.outside e in
    let r : Reach stub (placed s.world c) =
      subst (λ h. Reach stub (placed s.world (place_of h))) same v.reached in
    subst (Alone stub) (sym g) (record {
      holder = some (t, w.consumer);
      flag = v.flag ∙ ap is_held same;
      outside = (
        update_own s.place t (some w.consumer),
        λ u n.
            update_other s.place t u (some w.consumer) n
              (not_inside v.holder s.place t c v.outside same u n),
      );
      reached = next r step;
    })
Move-Alone stub s s' (unlock_consumer t e g) v =
    let same = is_holder v.holder s.place t idle v.outside e in
    subst (Alone stub) (sym g) (record {
      holder = none;
      flag = refl;
      outside = λ u. elim (Bool-cases (t == u)) [
        | inl f ↦
            subst (λ z. update s.place t none z ≡ none) ((==_iff t u).0 f)
              (update_own s.place t none)
        | inr f ↦
            update_other s.place t u none (ground arith)
              (not_inside v.holder s.place t idle v.outside same u (ground arith))
      ];
      reached = subst (λ h. Reach stub (placed s.world (place_of h))) same v.reached;
    })

Run-Alone : (stub : ℕ) (s : Threads) → Run stub s → Alone stub s
Run-Alone stub s start = record { holder = none; flag = refl; outside = λ t. refl; reached = here }
Run-Alone stub s (onward r m) = Move-Alone stub _ s m (Run-Alone stub _ r)

same_holder :
    (holder : Option (ℕ × Consumer)) (place : ℕ → Option Consumer) (t u : ℕ)
    → Outside holder place
    → place t ≢ none
    → place u ≢ none
    → t ≡ u
same_holder none place t u o a b = absurd (a (o t))
same_holder (some (h, c)) place t u o a b = is_h t a ∙ sym (is_h u b)
  where
    is_h : (t : ℕ) → place t ≢ none → t ≡ h
    is_h t a = elim (Bool-cases (t == h)) [
      | inl e ↦ (==_iff t h).0 e
      | inr e ↦ absurd (a (o.1 t (ground arith)))
    ]

either_place :
    (holder : Option (ℕ × Consumer)) (place : ℕ → Option Consumer) (t : ℕ)
    → Outside holder place
    → (place t ≡ none) ⊎ (place t ≡ some (place_of holder))
either_place none place t o = inl (o t)
either_place (some (h, c)) place t o = elim (Bool-cases (t == h)) [
  | inl e ↦ inr (ap place ((==_iff t h).0 e) ∙ o.0)
  | inr e ↦ inl (o.1 t (ground arith))
]

-- However many threads try to consume, an atomic operation at a time, one of them at most is inside
-- the queue, and all of them together are one consumer: with the place of that thread, or an idle
-- one if there is none, the queue is in a state that producers and a single consumer reach. No
-- thread is inside where the flag is not set.
pub one_consumer :
    (stub : ℕ) (s : Threads)
    → Run stub s
    → ((t u : ℕ) → s.place t ≢ none → s.place u ≢ none → t ≡ u)
      × ((c : Consumer) × Reach stub (placed s.world c)
          × ((t : ℕ) → (s.place t ≡ none) ⊎ (s.place t ≡ some c)))
      × (s.has_consumer ≡ false → (t : ℕ) → s.place t ≡ none)
one_consumer stub s r =
    let v = Run-Alone stub s r in
    (
      λ t u a b. same_holder v.holder s.place t u v.outside a b,
      (place_of v.holder, v.reached, λ t. either_place v.holder s.place t v.outside),
      λ e. subst (λ h. Outside h s.place) (no_holder v.holder (sym v.flag ∙ e)) v.outside,
    )

-- All links are there.
drop_linked :
    (q : MpscQueue) (linking : ℕ → Option ℕ) (x : ℕ) (l : List ℕ) (fuel : ℕ)
    → ((i : ℕ) → linking i ≡ none)
    → Chain q.next linking x l
    → length l + 1 < fuel
    → drop_loop fuel (some x) q ≡ some (items q.stub (x ∷ l))
unfolding drop_loop
drop_linked q linking x [] zero n c h = absurd (omega (arith, h))
drop_linked q linking x [] (suc zero) n c h = absurd (omega (arith, h))
drop_linked q linking x [] (suc (suc fuel)) n c h = rw (c, drop_loop) refl
drop_linked q linking x (y ∷ l) zero n c h = absurd (omega (arith, h))
drop_linked q linking x (y ∷ l) (suc fuel) n (inl e, c) h =
    rw (e, drop_linked q linking y l fuel n c (omega (arith, h)), drop_loop) refl
drop_linked q linking x (y ∷ l) (suc fuel) n (inr (e, f), c) h = let g = n y in cc

drop_all :
    (stub_is_static : Bool) (q : MpscQueue) (rest : List ℕ) (fuel : ℕ)
    → drop_loop fuel (some q.tail) q ≡ some (items q.stub (q.tail ∷ rest))
    → let l = items q.stub (q.tail ∷ rest) in
      drop_queue fuel stub_is_static q ≡ some (if stub_is_static then l else l ++ q.stub ∷ [])
unfolding drop_queue
drop_all stub_is_static q rest fuel e = rw (e, drop_queue) refl

-- Dropping a queue drops what is left in it, once each and in order, and nothing else but the stub if
-- that is not static: with what has been dequeued before it is just what was enqueued. (No
-- enqueue is under way; the fuel is enough where it is more than some number.)
pub drop_rest :
    (stub : ℕ) (s : Threads) (stub_is_static : Bool)
    → Run stub s
    → ((i : ℕ) → s.world.linking i ≡ none)
    → (dropped : List ℕ) × (s.world.enqueued ≡ s.world.dequeued ++ dropped)
      × ((n : ℕ) × ((fuel : ℕ)
            → n < fuel
            → drop_queue fuel stub_is_static s.world.queue
              ≡ some (if stub_is_static then dropped else dropped ++ s.world.queue.stub ∷ [])))
drop_rest stub s stub_is_static r n =
    let (rest, fifo, distinct, chain, last) = Reach-Fifo stub _ (Run-Alone stub s r).reached in
    (
      items s.world.queue.stub (s.world.queue.tail ∷ rest),
      fifo,
      (
        length rest + 1,
        λ fuel h.
            drop_all stub_is_static s.world.queue rest fuel
              (drop_linked s.world.queue s.world.linking s.world.queue.tail rest fuel n chain h),
      ),
    )
