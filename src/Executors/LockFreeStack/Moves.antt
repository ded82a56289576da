-- ===== src/Executors/LockFreeStack/Moves.antt =====
-- The steps of the strand's lists, and moves of one thread between places.
use tpcc.Prelude.{
  ℕ, ◌+◌, ◌<◌, Bool, some, List, [], ◌∷◌, ◌≡◌, sym, ap, ◌∙◌, if◌then◌else◌, update, update_other,
  update_cases, count, total, total-update, arith, subst, ℕ_discrete,
}
use tpcc.Executors.Strand.{push, pop, exchange_with_another}
use tpcc.Executors.LockFreeStack.{StackNode, Shared, Thread, System}
use tpcc.Executors.LockFreeStack.Chains.{
  contents, Chain-update, contents-update, own, Taken, weight, Taken-update, Lists, Represents,
  own-apart,
}

module _ {T : Type 0} where
  -- The steps of the strand's model, by its operations on lists, and steps that it does not see.
  pub data ListStep (a : Lists T) : Lists T → Type 0 where
    stays : ListStep a a
    puts : (t : T) → ListStep a (record a { stack = push t a.stack })
    exchanges :
        (i : ℕ)
        → a.chains i ≡ []
        → ListStep a (record {
          stack = (exchange_with_another [] a.stack).1;
          chains = update a.chains i (exchange_with_another [] a.stack).0;
        })
    pops :
        (i : ℕ) (t : T) (rest : List T)
        → pop (a.chains i) ≡ some (t, rest)
        → ListStep a (record a { chains = update a.chains i rest })

  module _ (n : ℕ) where
    -- What a step of thread `i` is to show.
    abbrev pub Simulated : System T → Lists T → ℕ → Shared T × Thread T → Type 0
    Simulated s a i r =
        (b : Lists T) × ListStep a b
        × Represents n (record { shared = r.0; threads = update s.threads i r.1 }) b

    pub agree_still :
        (s : System T) (a : Lists T) (v : Represents n s a) (i : ℕ) (thread : Thread T)
        (xs : List ℕ)
        → (j : ℕ) → j < n
        → update s.threads i thread j ≡ (update v.places i (thread, xs) j).0
    agree_still s a v i thread xs j lt = elim (ℕ_discrete i j) [
      | yes same ↦ ground (arith, same)
      | no ne ↦
          update_other s.threads i thread j ne
          ∙ v.agree j lt
          ∙ ap (λ g. g.0) (sym (update_other v.places i (thread, xs) j ne))
    ]

    -- A thread without a chain goes on to be without one, and one node outside all chains is written to.
    pub write-Represents :
        (s : System T) (a : Lists T) (v : Represents n s a) (i : ℕ)
        → i < n
        → (x : ℕ) (c : StackNode T) (thread : Thread T) (allocated : ℕ → Bool)
        → (count x v.addresses ≡ 0) × ((j : ℕ) → j < n → count x (v.places j).1 ≡ 0)
        → (v.places i).1 ≡ []
        → Taken (update s.shared.cells x c) thread []
        → ((y : ℕ)
            → count y v.addresses + total (weight y) n (update v.places i (thread, []))
              ≡ (if allocated y then 1 else 0))
        → Represents n
            (record {
              shared = record s.shared { cells = update s.shared.cells x c; allocated = allocated };
              threads = update s.threads i thread;
            })
            a
    write-Represents s a v i lt x c thread allocated (away, aside) before chainless single =
        record {
          addresses = v.addresses;
          places = update v.places i (thread, []);
          agree = agree_still s a v i thread [];
          reached = Chain-update s.shared.cells x c s.shared.head v.addresses away v.reached;
          listed = v.listed ∙ sym (contents-update s.shared.cells x c v.addresses away);
          taken = λ j below.
              update_cases (λ g. Taken (update s.shared.cells x c) g.0 g.1) v.places i (thread, [])
                j (λ same. chainless)
                (λ ne.
                  Taken-update s.shared.cells x c (v.places j).0 (v.places j).1 (aside j below)
                    (v.taken j below));
          owed = λ j below.
              update_cases (λ g. a.chains j ≡ contents (update s.shared.cells x c) g.1) v.places i
                (thread, []) j
                (λ same. ap a.chains (sym same) ∙ v.owed i lt ∙ ap (contents s.shared.cells) before)
                (λ ne.
                  v.owed j below
                  ∙ sym (contents-update s.shared.cells x c (v.places j).1 (aside j below)));
          single = single;
          no_pool = v.no_pool;
        }

    -- A thread whose place is known to have no chain.
    pub chainless :
        (cells : ℕ → StackNode T) (g : Thread T × List ℕ) (thread : Thread T)
        → g.0 ≡ thread
        → Taken cells g.0 g.1
        → Taken cells thread g.1
    chainless cells g thread e h = subst (λ p. Taken cells p g.1) e h

    -- A step between places without a chain, with one node for each thread's part.
    pub private-Represents :
        (s : System T) (a : Lists T) (v : Represents n s a) (i x : ℕ) (c : StackNode T)
        (before after : Thread T)
        → i < n
        → s.threads i ≡ before
        → own before ≡ x ∷ []
        → own after ≡ x ∷ []
        → ((xs : List ℕ) → Taken s.shared.cells before xs → xs ≡ [])
        → Taken (update s.shared.cells x c) after []
        → Represents n
            (record {
              shared = record s.shared { cells = update s.shared.cells x c };
              threads = update s.threads i after;
            })
            a
    unfolding count
    private-Represents s a v i x c before after lt at owned owns no_chain free =
        let here_now : (v.places i).0 ≡ before = sym (v.agree i lt) ∙ at in
        let empty : (v.places i).1 ≡ [] =
          no_chain (v.places i).1
            (chainless s.shared.cells (v.places i) before here_now (v.taken i lt)) in
        let mine : own (v.places i).0 ≡ x ∷ [] = ap own here_now ∙ owned in
        write-Represents s a v i lt x c after s.shared.allocated
          (own-apart n s a v x i lt (ground (arith, ap (count x) mine)) empty) empty free
          (λ y. omega (
            arith,
            v.single y,
            total-update (weight y) n v.places i (after, []) lt,
            ap (count y) mine,
            ap (count y) empty,
            ap (count y) owns,
          ))

    -- The cells stay, and so does the chain of `stack_`; thread `i` goes to another place.
    pub place-Represents :
        (s : System T) (a : Lists T) (v : Represents n s a) (i : ℕ)
        → i < n
        → (thread : Thread T) (xs : List ℕ) (allocated : ℕ → Bool) (chain : List T)
        → Taken s.shared.cells thread xs
        → chain ≡ contents s.shared.cells xs
        → ((y : ℕ)
            → count y v.addresses + total (weight y) n (update v.places i (thread, xs))
              ≡ (if allocated y then 1 else 0))
        → Represents n
            (record {
              shared = record s.shared { allocated = allocated };
              threads = update s.threads i thread;
            })
            (record a { chains = update a.chains i chain })
    place-Represents s a v i lt thread xs allocated chain chained same single = record {
      addresses = v.addresses;
      places = update v.places i (thread, xs);
      agree = agree_still s a v i thread xs;
      reached = v.reached;
      listed = v.listed;
      taken = λ j below.
          update_cases (λ g. Taken s.shared.cells g.0 g.1) v.places i (thread, xs) j (λ e. chained)
            (λ ne. v.taken j below);
      owed = λ j below. elim (ℕ_discrete i j) [
        | yes e ↦ ground (arith, e, same)
        | no ne ↦
            update_other a.chains i chain j ne
            ∙ v.owed j below
            ∙ ap (λ g. contents s.shared.cells g.1)
                (sym (update_other v.places i (thread, xs) j ne))
      ];
      single = single;
      no_pool = v.no_pool;
    }

    -- The same, for a thread that has no chain before or after, with no step of the lists.
    pub idle-Represents :
        (s : System T) (a : Lists T) (v : Represents n s a) (i : ℕ)
        → i < n
        → (thread : Thread T) (allocated : ℕ → Bool) → (v.places i).1 ≡ []
        → Taken s.shared.cells thread []
        → ((y : ℕ)
            → count y v.addresses + total (weight y) n (update v.places i (thread, []))
              ≡ (if allocated y then 1 else 0))
        → Represents n
            (record {
              shared = record s.shared { allocated = allocated };
              threads = update s.threads i thread;
            })
            a
    idle-Represents s a v i lt thread allocated empty free single = record {
      addresses = v.addresses;
      places = update v.places i (thread, []);
      agree = agree_still s a v i thread [];
      reached = v.reached;
      listed = v.listed;
      taken = λ j below.
          update_cases (λ g. Taken s.shared.cells g.0 g.1) v.places i (thread, []) j (λ e. free)
            (λ ne. v.taken j below);
      owed = λ j below.
          update_cases (λ g. a.chains j ≡ contents s.shared.cells g.1) v.places i (thread, []) j
            (λ e. ap a.chains (sym e) ∙ v.owed i lt ∙ ap (contents s.shared.cells) empty)
            (λ ne. v.owed j below);
      single = single;
      no_pool = v.no_pool;
    }
