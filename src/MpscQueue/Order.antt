-- ===== src/MpscQueue/Order.antt =====
-- What the producers' operations and the consumer's do to the order of the queue.
use mathlib.Core.Path.{subst}
use mathlib.Core.Option.{Option, none, some}
use mathlib.Core.List.{append_assoc}
use wasm_kernel.Base.{
  NotIn, Distinct, snoc-NotIn, snoc-Distinct, ℕ, ◌==◌, ◌≡◌, ◌≢◌, ◌⊎◌, inl, inr, sym, ap, ◌∙◌, Bool,
  false, Bool-cases, ==_iff, update, List, [], ◌∷◌, ◌++◌, arith,
}
use wasm_kernel.MpscQueue.Queue.{MpscQueue, swap_head, link}
use wasm_kernel.MpscQueue.Chain.{
  Joined, Chain, last_of, Follows, items, one_follower, Chain-link, Chain-snoc, last_of-snoc,
  Follows-append, Follows-snoc, Chain-last, items-snoc,
}

-- `rest` are the nodes after the tail, in order; `gone` and `all` what has been dequeued and
-- enqueued.
pub record Order (q : MpscQueue) (linking : ℕ → Option ℕ) (inside : ℕ → Bool)
    (all gone rest : List ℕ) : Type 0 where
  pub chain : Chain q.next linking q.tail rest
  pub distinct : Distinct (q.tail ∷ rest)
  pub last : last_of q.tail rest ≡ q.head
  pub owned : (i p : ℕ) → linking i ≡ some p → Follows p i q.tail rest × (q.next p ≡ none)
  pub outside : (i : ℕ) → i ≢ q.stub → inside i ≡ false → NotIn i (q.tail ∷ rest)
  pub fifo : gone ++ items q.stub (q.tail ∷ rest) ≡ all

some_eq : {a b : ℕ} → ◌≡◌ {A = Option ℕ} (some a) (some b) → a ≡ b
some_eq e = cc

cleared : (next : ℕ → Option ℕ) (i p : ℕ) → next p ≡ none → update next i none p ≡ none
cleared next i p e = ground arith

module _ (q : MpscQueue) (linking : ℕ → Option ℕ) (inside : ℕ → Bool) (all gone rest : List ℕ)
    (o : Order q linking inside all gone rest) where
  -- A node that is not queued is put at the end.
  pub swap_head-Order :
      (i : ℕ) (inside' : ℕ → Bool)
      → NotIn i (q.tail ∷ rest)
      → ((j : ℕ) → j ≢ q.stub → inside' j ≡ false → NotIn j (q.tail ∷ rest) × (j ≢ i))
      → Order
          (swap_head i q).0
          (update linking i (some (swap_head i q).1))
          inside'
          (all ++ items q.stub (i ∷ []))
          gone
          (rest ++ i ∷ [])
  unfolding swap_head
  swap_head-Order i inside' n out = record {
    chain =
        subst
          (λ (p : ℕ).
            Chain (update q.next i none) (update linking i (some p)) q.tail (rest ++ i ∷ []))
          o.last (Chain-snoc q.next linking i q.tail rest n o.chain);
    distinct = snoc-Distinct (q.tail ∷ rest) i o.distinct n;
    last = last_of-snoc q.tail rest i;
    owned = still_owned;
    outside = λ j s e. let (a, b) = out j s e in snoc-NotIn j (q.tail ∷ rest) i a b;
    fifo =
        ap (λ (l : List ℕ). gone ++ l) (items-snoc q.stub (q.tail ∷ rest) i)
        ∙ (sym (append_assoc gone (items q.stub (q.tail ∷ rest)) (items q.stub (i ∷ [])))
            ∙ ap (λ (l : List ℕ). l ++ items q.stub (i ∷ [])) o.fifo);
  }
    where
      still_owned :
          (j p : ℕ)
          → update linking i (some q.head) j ≡ some p
          → Follows p j q.tail (rest ++ i ∷ []) × (update q.next i none p ≡ none)
      still_owned j p e = elim (Bool-cases (i == j)) [
        | inl f ↦
            let g : q.head ≡ p = some_eq (rw f at e) in
            let k : last_of q.tail rest ≡ p = o.last ∙ g in
            (
              subst (λ (a : ℕ). Follows a j q.tail (rest ++ i ∷ [])) k
                  (subst (λ (b : ℕ). Follows (last_of q.tail rest) b q.tail (rest ++ i ∷ []))
                    ((==_iff i j).0 f) (Follows-snoc q.tail rest i)),
              cleared q.next i p
                  (ap q.next (sym k) ∙ Chain-last q.next linking q.tail rest o.chain),
            )
        | inr f ↦
            let (a, b) = o.owned j p (rw f at e) in
            (Follows-append p j q.tail rest (i ∷ []) a, cleared q.next i p b)
      ]

  -- A link is set.
  pub link-Order :
      (i p : ℕ)
      → linking i ≡ some p
      → Order (link p i q) (update linking i none) inside all gone rest
  unfolding link
  link-Order i p e =
      let (f, n) = o.owned i p e in
      record {
        chain = Chain-link q.next linking p i q.tail rest o.distinct f o.chain;
        distinct = o.distinct;
        last = o.last;
        owned = λ j r g. elim (Bool-cases (i == j)) [
          | inl h ↦ let k : ◌≡◌ {A = Option ℕ} none (some r) = rw h at g in cc
          | inr h ↦
              let (a, b) = o.owned j r (rw h at g) in
              (
                a,
                elim (Bool-cases (p == r)) [
                  | inl k ↦
                      let u =
                        one_follower r i j q.tail rest o.distinct
                          (subst (λ (z : ℕ). Follows z i q.tail rest) ((==_iff p r).0 k) f) a in
                      let v = (==_iff i j).1 u in cc
                  | inr k ↦ rw k b
                ],
              )
        ];
        outside = o.outside;
        fifo = o.fifo;
      }

-- The tail goes on to the node that it links to.
pub advance-Order :
    (q : MpscQueue) (linking : ℕ → Option ℕ) (inside : ℕ → Bool) (all gone rest : List ℕ)
    → Order q linking inside all gone rest
    → (n : ℕ) (inside' : ℕ → Bool) (gone' : List ℕ) → q.next q.tail ≡ some n
    → ((j : ℕ) → j ≢ q.stub → inside' j ≡ false → (inside j ≡ false) ⊎ (j ≡ q.tail))
    → ((l : List ℕ) → gone ++ items q.stub (q.tail ∷ l) ≡ gone' ++ items q.stub l)
    → (rest' : List ℕ) × (rest ≡ n ∷ rest')
      × Order (record q { tail = n }) linking inside' all gone' rest'
advance-Order q linking inside all gone [] o n inside' gone' e out same =
    let k : ◌≡◌ {A = Option ℕ} none (some n) = sym o.chain ∙ e in cc
advance-Order q linking inside all gone (y ∷ rest) o n inside' gone' e out same = (
  rest,
  ap (λ (z : ℕ). z ∷ rest) y_eq,
  subst (λ z. Order (record q { tail = z }) linking inside' all gone' rest) y_eq moved_on,
)
  where
    second : Joined q.next linking q.tail y → y ≡ n
    second (inl f) = some_eq (sym f ∙ e)
    second (inr (f, g)) = let k : ◌≡◌ {A = Option ℕ} none (some n) = sym f ∙ e in cc

    y_eq : y ≡ n
    y_eq = second o.chain.0

    now_outside : (j : ℕ) → (inside j ≡ false) ⊎ (j ≡ q.tail) → j ≢ q.stub → NotIn j (y ∷ rest)
    now_outside j (inl f) s = (o.outside j s f).1
    now_outside j (inr f) s = subst (λ z. NotIn z (y ∷ rest)) (sym f) o.distinct.0

    not_first :
        (j p : ℕ)
        → q.next p ≡ none
        → ((q.tail ≡ p) × (y ≡ j)) ⊎ Follows p j y rest
        → Follows p j y rest
    not_first j p f (inl (a, b)) =
        let k = ap q.next a in let h : ◌≡◌ {A = Option ℕ} none (some n) = sym f ∙ (sym k ∙ e) in cc
    not_first j p f (inr a) = a

    moved_on : Order (record q { tail = y }) linking inside' all gone' rest
    moved_on = record {
      chain = o.chain.1;
      distinct = o.distinct.1;
      last = o.last;
      owned = λ j p f. let (a, b) = o.owned j p f in (not_first j p b a, b);
      outside = λ j s f. now_outside j (out j s f) s;
      fifo = sym (same (y ∷ rest)) ∙ o.fifo;
    }
