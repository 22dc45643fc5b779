-- ===== src/Stack/Contents.antt =====
-- The links stand for the stacks as lists.
use mathlib.Core.Path.{subst}
use mathlib.Core.Option.{none, some}
use wasm_kernel.Base.{
  NotIn, ℕ, ◌==◌, ◌≡◌, ◌≢◌, refl, sym, ap, ◌∙◌, inl, inr, Bool-cases, ==_iff, update, if◌then◌else◌,
  List, [], ◌∷◌, All, arith,
}
use wasm_kernel.Stack.Node.{Link, set_link, take_all, push}
use wasm_kernel.Stack.Threads.{Place, outside, pushing, shared, local, World, moved, loaded}
use wasm_kernel.Stack.Linked.{Linked, Linked-update, Held, Held-NotIn, All-update}

pub record Inv (w : World) : Type 0 where
  pub main : Linked w.stack.next w.stack.head w.contents
  pub main_held : Held w.place shared w.contents
  pub locals : (j : ℕ) → Linked w.stack.next (w.stacks j) (w.taken j)
  pub locals_held : (j : ℕ) → Held w.place (local j) (w.taken j)
  pub fresh : (i : ℕ) → w.place i ≡ outside → w.stack.next i ≡ none
  pub reading : (i : ℕ) → w.place i ≡ pushing → w.stack.next i ≡ w.expected i

module _ (w : World) (v : Inv w) where
  not_main : (i : ℕ) → w.place i ≢ shared → NotIn i w.contents
  not_main i n = Held-NotIn w.place shared i w.contents v.main_held.0 n

  not_local : (i j : ℕ) → w.place i ≢ local j → NotIn i (w.taken j)
  not_local i j n = Held-NotIn w.place (local j) i (w.taken j) (v.locals_held j).0 n

  pub main-Held :
      (i : ℕ) (p : Place) → w.place i ≢ shared → Held (update w.place i p) shared w.contents
  main-Held i p n =
      (All-update w.place shared i p w.contents (not_main i n) v.main_held.0, v.main_held.1)

  pub local-Held :
      (i j : ℕ) (p : Place) → w.place i ≢ local j → Held (update w.place i p) (local j) (w.taken j)
  local-Held i j p n = (
    All-update w.place (local j) i p (w.taken j) (not_local i j n) (v.locals_held j).0,
    (v.locals_held j).1,
  )

  pub main_links :
      (i : ℕ) (a : Link)
      → w.place i ≢ shared
      → Linked (update w.stack.next i a) w.stack.head w.contents
  main_links i a n = Linked-update w.stack.next w.stack.head i a w.contents (not_main i n) v.main

  pub local_links :
      (i j : ℕ) (a : Link)
      → w.place i ≢ local j
      → Linked (update w.stack.next i a) (w.stacks j) (w.taken j)
  local_links i j a n =
      Linked-update w.stack.next (w.stacks j) i a (w.taken j) (not_local i j n) (v.locals j)

  pub loaded-Inv : (i : ℕ) → w.place i ≢ shared → ((j : ℕ) → w.place i ≢ local j) → Inv (loaded w i)
  unfolding set_link
  loaded-Inv i m l = record {
    main = main_links i w.stack.head m;
    main_held = main-Held i pushing m;
    locals = λ j. local_links i j w.stack.head (l j);
    locals_held = λ j. local-Held i j pushing (l j);
    fresh = λ k e. elim (Bool-cases (i == k)) [
      | inl f ↦ let g : pushing ≡ outside = rw f at e in cc
      | inr f ↦ rw f (v.fresh k (rw f at e))
    ];
    reading = λ k e. elim (Bool-cases (i == k)) [
      | inl f ↦ rw f refl
      | inr f ↦ rw f (v.reading k (rw f at e))
    ];
  }

  pub pushed-Inv :
      (i : ℕ)
      → w.place i ≡ pushing
      → w.stack.head ≡ w.expected i
      → Inv (record w {
        stack = record w.stack { head = some i };
        contents = i ∷ w.contents;
        place = update w.place i shared;
      })
  pushed-Inv i p e =
      let m : w.place i ≢ shared = λ f. cc in
      let l : (j : ℕ) → w.place i ≢ local j = λ j f. cc in
      record {
        main =
            (refl, subst (λ h. Linked w.stack.next h w.contents) (e ∙ sym (v.reading i p)) v.main);
        main_held = ((ground arith, (main-Held i shared m).0), (not_main i m, v.main_held.1));
        locals = v.locals;
        locals_held = λ j. local-Held i j shared (l j);
        fresh = λ k e. elim (Bool-cases (i == k)) [
          | inl f ↦ let g : shared ≡ outside = rw f at e in cc
          | inr f ↦ v.fresh k (rw f at e)
        ];
        reading = λ k e. elim (Bool-cases (i == k)) [
          | inl f ↦ let g : shared ≡ pushing = rw f at e in cc
          | inr f ↦ v.reading k (rw f at e)
        ];
      }

moved-shared :
    (place : ℕ → Place) (j : ℕ) (l : List ℕ)
    → All (λ x. place x ≡ shared) l
    → All (λ x. moved j (place x) ≡ local j) l
moved-shared place j [] a = tt
moved-shared place j (x ∷ l) (e, a) = (ap (moved j) e, moved-shared place j l a)

moved-local :
    (place : ℕ → Place) (j k : ℕ) (l : List ℕ)
    → All (λ x. place x ≡ local k) l
    → All (λ x. moved j (place x) ≡ local k) l
moved-local place j k [] a = tt
moved-local place j k (x ∷ l) (e, a) = (ap (moved j) e, moved-local place j k l a)

unmoved :
    (j : ℕ) (p : Place) → (moved j p ≡ outside → p ≡ outside) × (moved j p ≡ pushing → p ≡ pushing)
unmoved j outside = (λ e. refl, λ e. cc)
unmoved j pushing = (λ e. cc, λ e. refl)
unmoved j shared = (λ e. cc, λ e. cc)
unmoved j (local k) = (λ e. cc, λ e. cc)

module _ (w : World) (v : Inv w) where
  pub taken-Inv :
      (j : ℕ)
      → Inv (record w {
        stack = (take_all w.stack).0;
        stacks = update w.stacks j (take_all w.stack).1;
        contents = [];
        taken = λ k. if j == k then w.contents else w.taken k;
        place = λ i. moved j (w.place i);
      })
  unfolding take_all
  taken-Inv j = record {
    main = refl;
    main_held = (tt, tt);
    locals = λ k. elim (Bool-cases (j == k)) [ inl e ↦ rw e v.main | inr e ↦ rw e (v.locals k) ];
    locals_held = λ k. elim (Bool-cases (j == k)) [
      | inl e ↦ rw e (
        subst (λ z. All (λ x. moved j (w.place x) ≡ local z) w.contents) ((==_iff j k).0 e)
            (moved-shared w.place j w.contents v.main_held.0),
        v.main_held.1,
      )
      | inr e ↦ rw e (moved-local w.place j k (w.taken k) (v.locals_held k).0, (v.locals_held k).1)
    ];
    fresh = λ i e. v.fresh i ((unmoved j (w.place i)).0 e);
    reading = λ i e. v.reading i ((unmoved j (w.place i)).1 e);
  }

  pub push_local-Inv :
      (i j : ℕ)
      → w.place i ≡ outside
      → Inv (record w {
        stack = record w.stack { next = (push i w.stack.next (w.stacks j)).0 };
        stacks = update w.stacks j (push i w.stack.next (w.stacks j)).1;
        taken = λ k. if j == k then i ∷ w.taken k else w.taken k;
        place = update w.place i (local j);
      })
  unfolding push
  push_local-Inv i j p =
      let m : w.place i ≢ shared = λ f. cc in
      let l : (k : ℕ) → w.place i ≢ local k = λ k f. cc in
      record {
        main = main_links w v i (w.stacks j) m;
        main_held = main-Held w v i (local j) m;
        locals = λ k. elim (Bool-cases (j == k)) [
          | inl e ↦ rw e (
            refl,
            subst (λ h. Linked (update w.stack.next i (w.stacks j)) h (w.taken k))
                (ap w.stacks (sym ((==_iff j k).0 e)) ∙ (ground arith))
                (local_links w v i k (w.stacks j) (l k)),
          )
          | inr e ↦ rw e (local_links w v i k (w.stacks j) (l k))
        ];
        locals_held = λ k. elim (Bool-cases (j == k)) [
          | inl e ↦
              let f = ap local ((==_iff j k).0 e) in
              rw e (
                (ground arith, (local-Held w v i k (local j) (l k)).0),
                (not_local w v i k (l k), (v.locals_held k).1),
              )
          | inr e ↦ rw e (local-Held w v i k (local j) (l k))
        ];
        fresh = λ k e. elim (Bool-cases (i == k)) [
          | inl f ↦ let g : local j ≡ outside = rw f at e in cc
          | inr f ↦ rw f (v.fresh k (rw f at e))
        ];
        reading = λ k e. elim (Bool-cases (i == k)) [
          | inl f ↦ let g : local j ≡ pushing = rw f at e in cc
          | inr f ↦ rw f (v.reading k (rw f at e))
        ];
      }
