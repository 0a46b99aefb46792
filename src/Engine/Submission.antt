-- ===== src/Engine/Submission.antt =====
-- What `submit` promises: an accepted request fits the model and is registered under a new
-- identifier; a refused one leaves no trace but its count.
use Prim.Native.String.{String, len}
use text.Mathlib.Text.{◌==◌ as str_eq}
use text.Mathlib.TextEquality.{eq_iff}
use mini_llm_runtime.Base.{
  ℕ, zero, suc, ◌+◌, ◌-◌, ◌<◌, ◌≤◌, ◌≡◌, refl, sym, ap, ◌∙◌, inl, inr, ◌⊎◌, ℤ, pos_part, Bool, true,
  false, ◌||◌, none, some, List, [], ◌∷◌, ◌++◌, map, arith, leb, ltb, ◌==◌, is_empty, length, All,
  Bool-cases, Option-cases,
}
use mini_llm_runtime.Config.{EngineConfig}
use mini_llm_runtime.Runner.{ModelRunner}
use mini_llm_runtime.Engine.{Request, World, Engine}
use mini_llm_runtime.Engine.Finish.{erase_id}
use mini_llm_runtime.Engine.Logic.{core}
use mini_llm_runtime.Engine.Clients.{
  RequestInput, Checked, fine, refuse, fail, bad_input, in_vocabulary, find_request, registered,
  is_known, order_id, fresh_id, Submitted, accepts, refuses, throws, stuck, read_prompt,
  checked_tokens, checked_prompt, ◌>>=◌, reject, name_request, register, submit,
}

-- An accepted request is within the limits of the configuration, its prompt is in the vocabulary,
-- and it is the one request that is registered anew and handed to the thread; its order is new.
pub record IsAccepted {R : Type 0} (vocab_size : ℕ) (r : Request) (before after : Engine R)
    : Type 0 where
  pub some_prompt : 0 < length r.prompt
  pub some_tokens : 0 < r.max_tokens
  pub fits : length r.prompt + r.max_tokens ≤ before.config.max_model_len
  pub known : All (λ (t : ℕ). t < vocab_size) r.prompt
  pub room : length before.registry < before.config.queue_capacity
  pub unknown_id : registered r.id before.registry ≡ false
  pub new_order : (before.next_order < r.order) × (r.order ≤ after.next_order)
  pub registry : after.registry ≡ (r.id, r.order) ∷ before.registry
  pub incoming : after.incoming ≡ before.incoming ++ r ∷ []
  pub counted : (after.accepted ≡ before.accepted + 1) × (after.rejected ≡ before.rejected)
  pub kept : core after ≡ core before

-- A refused request is counted, and nothing else of what the clients share changes.
pub record IsRefused {R : Type 0} (before after : Engine R) : Type 0 where
  pub registry : after.registry ≡ before.registry
  pub incoming : after.incoming ≡ before.incoming
  pub handles : after.handles ≡ before.handles
  pub counted : (after.accepted ≡ before.accepted) × (after.rejected ≡ before.rejected + 1)
  pub kept : core after ≡ core before

-- What `submit` does in each case; the fuel for an identifier is never used up.
abbrev pub IsSubmitted : {R : Type 0} → ℕ → Engine R → Submitted × Engine R → Type 0
IsSubmitted vocab_size before (accepts r, after) = IsAccepted vocab_size r before after
IsSubmitted vocab_size before (refuses status code, after) = IsRefused before after
IsSubmitted vocab_size before (throws x, after) = IsRefused before after
IsSubmitted vocab_size before (stuck, after) = ⊥

find_request-erase_id :
    (a b : String) (xs : List (String × ℕ))
    → str_eq a b ≡ false
    → find_request b (erase_id a xs) ≡ find_request b xs
unfolding find_request erase_id
find_request-erase_id a b [] other = refl
find_request-erase_id a b (x ∷ xs) other =
    ground (arith, find_request-erase_id a b xs other, eq_iff x.0 a, eq_iff x.0 b, eq_iff a b)

length-erase_id-le : (a : String) (xs : List (String × ℕ)) → length (erase_id a xs) ≤ length xs
unfolding erase_id
length-erase_id-le a [] = omega arith
length-erase_id-le a (x ∷ xs) = ground (arith, length-erase_id-le a xs)

length-erase_id :
    (a : String) (xs : List (String × ℕ)) (n : ℕ)
    → find_request a xs ≡ some n
    → length (erase_id a xs) < length xs
unfolding find_request erase_id
length-erase_id a [] n h = cc
length-erase_id a (x ∷ xs) n h = elim (Bool-cases (str_eq x.0 a)) [
  | inl own ↦ rw own (omega (arith, length-erase_id-le a xs))
  | inr other ↦ rw other (omega (arith, length-erase_id a xs n (ground (arith, h, other))))
]

module _ (to_string : ℕ → String)
    (injective : (i j : ℕ) → order_id to_string i ≡ order_id to_string j → i ≡ j) where
  apart : (k i : ℕ) → str_eq (order_id to_string k) (order_id to_string (k + 1 + i)) ≡ false
  apart k i = elim (Bool-cases (str_eq (order_id to_string k) (order_id to_string (k + 1 + i)))) [
    | inl same ↦ absurd (
        omega (
          arith,
          injective k (k + 1 + i)
              ((eq_iff (order_id to_string k) (order_id to_string (k + 1 + i))).0 same),
        ))
    | inr other ↦ other
  ]

  -- Among one more identifiers than are registered there is one that is not.
  free_id :
      (n k : ℕ) (xs : List (String × ℕ))
      → length xs ≤ n
      → (i : ℕ) × (i ≤ n) × (find_request (order_id to_string (k + i)) xs ≡ none)
  unfolding find_request
  free_id zero k [] h = (0, omega arith, refl)
  free_id zero k (x ∷ xs) h = absurd (omega arith)
  free_id (suc n) k xs h =
      chosen (λ (ys : List (String × ℕ)) (small : length ys ≤ n). free_id n (k + 1) ys small)
        (Option-cases (find_request (order_id to_string k) xs))
    where
      chosen :
          ((ys : List (String × ℕ))
            → length ys ≤ n
            → (i : ℕ) × (i ≤ n) × (find_request (order_id to_string (k + 1 + i)) ys ≡ none))
          → (find_request (order_id to_string k) xs ≡ none)
            ⊎ ((order : ℕ) × (find_request (order_id to_string k) xs ≡ some order))
          → (i : ℕ) × (i ≤ suc n) × (find_request (order_id to_string (k + i)) xs ≡ none)
      chosen rest (inl none_there) =
          let same : k + 0 ≡ k = omega arith in
          (0, omega arith, ap (λ j. find_request (order_id to_string j) xs) same ∙ none_there)
      chosen rest (inr (order, there)) =
          let (i, small, free) =
            rest (erase_id (order_id to_string k) xs)
              (omega (arith, length-erase_id (order_id to_string k) xs order there, h)) in
          let same : k + suc i ≡ k + 1 + i = omega arith in
          (
            suc i,
            omega (arith, small),
            ap (λ j. find_request (order_id to_string j) xs) same
                ∙ sym (
                    find_request-erase_id (order_id to_string k) (order_id to_string (k + 1 + i)) xs
                      (apart k i))
                ∙ free,
          )

  fresh_id-some :
      (fuel k i : ℕ) (xs : List (String × ℕ))
      → i < fuel
      → find_request (order_id to_string (k + i)) xs ≡ none
      → (last : ℕ) × (fresh_id to_string fuel k xs ≡ some (order_id to_string last, last))
        × (k ≤ last)
        × (find_request (order_id to_string last) xs ≡ none)
  unfolding fresh_id
  fresh_id-some zero k i xs h free = absurd (omega arith)
  fresh_id-some (suc fuel) k zero xs h free =
      let same : k + 0 ≡ k = omega arith in
      let here : find_request (order_id to_string k) xs ≡ none =
        sym (ap (λ j. find_request (order_id to_string j) xs) same) ∙ free in
      (k, rw (fresh_id, here) refl, omega arith, here)
  fresh_id-some (suc fuel) k (suc i) xs h free =
      elim (Option-cases (find_request (order_id to_string k) xs)) [
        | inl here ↦ (k, rw (fresh_id, here) refl, omega arith, here)
        | inr (order, there) ↦
            let same : k + 1 + i ≡ k + suc i = omega arith in
            let (last, found, below, none_there) =
              fresh_id-some fuel (k + 1) i xs (omega (arith, h))
                (ap (λ j. find_request (order_id to_string j) xs) same ∙ free) in
            (last, rw (fresh_id, there) found, omega (arith, below), none_there)
      ]

in_vocabulary-All :
    (v : ℕ) (ts : List ℤ)
    → in_vocabulary v ts ≡ true
    → All (λ (t : ℕ). t < v) (map pos_part ts) × (length (map pos_part ts) ≡ length ts)
unfolding in_vocabulary
in_vocabulary-All v [] h = (tt, refl)
in_vocabulary-All v (t ∷ ts) h =
    let (rest, same) = in_vocabulary-All v ts (ground (arith, h)) in
    ((ground (arith, h), rest), omega (arith, same))

module _ {R : Type 0} (to_string : ℕ → String) (w : World) (m : ModelRunner R) (c : EngineConfig)
    (input : RequestInput) where
  -- What the checks before the mutex ensure.
  abbrev IsFit : List ℕ → Type 0
  IsFit prompt =
      (0 < length prompt)
      × (0 < input.max_tokens)
      × (length prompt + input.max_tokens ≤ c.max_model_len)
      × All (λ (t : ℕ). t < m.vocab_size) prompt

  abbrev IsPassed : Checked (List ℕ) → Type 0
  IsPassed (fine prompt) = IsFit prompt
  IsPassed (refuse status code) = Unit
  IsPassed (fail x) = Unit

  read-IsPassed :
      (r : Checked (List ℤ))
      → bad_input c input ≡ false
      → IsPassed (r >>= checked_tokens to_string w m c input)
  unfolding bad_input
  read-IsPassed (refuse status code) good = tt
  read-IsPassed (fail x) good = tt
  read-IsPassed (fine prompt) good =
      elim (Bool-cases
        (is_empty prompt || ltb (c.max_model_len - input.max_tokens) (length prompt))) [
          | inl bad ↦ rw bad tt
          | inr inside ↦ rw inside (elim (Bool-cases (in_vocabulary m.vocab_size prompt)) [
            | inl known ↦ rw known (
                let (all_known, same) = in_vocabulary-All m.vocab_size prompt known in
                let positive : 0 < length prompt = some_prompt prompt inside in
                (
                  omega (arith, same, positive),
                  ground (arith, good),
                  ground (arith, same, inside, good),
                  all_known,
                ))
            | inr unknown ↦ rw unknown tt
          ])
        ]
    where
      some_prompt :
          (ts : List ℤ)
          → (is_empty ts || ltb (c.max_model_len - input.max_tokens) (length ts)) ≡ false
          → 0 < length ts
      some_prompt [] h = cc
      some_prompt (t ∷ ts) h = omega arith

  checked_prompt-IsPassed : IsPassed (checked_prompt to_string w m c input)
  unfolding checked_prompt
  checked_prompt-IsPassed = elim (Bool-cases (bad_input c input)) [
    | inl bad ↦ rw bad tt
    | inr good ↦ rw good (read-IsPassed (read_prompt to_string w m input.prompt) good)
  ]

module _ {R : Type 0} (to_string : ℕ → String)
    (injective : (i j : ℕ) → order_id to_string i ≡ order_id to_string j → i ≡ j) (w : World)
    (m : ModelRunner R) (input : RequestInput) where
  name_request-IsSubmitted :
      (prompt : List ℕ) (created : ℕ) (e : Engine R)
      → IsFit to_string w m e.config input prompt
      → length e.registry < e.config.queue_capacity
      → IsSubmitted m.vocab_size e
          (name_request to_string w m input prompt created (e.next_order + 1) e)
  unfolding name_request
  name_request-IsSubmitted prompt created e fit room = elim (Bool-cases (len input.id == 0)) [
    | inl unnamed ↦ rw unnamed (
        let (i, small, free) =
          free_id to_string injective (length e.registry) (e.next_order + 1) e.registry
            (omega arith) in
        let (last, found, below, none_there) =
          fresh_id-some to_string injective (suc (length e.registry)) (e.next_order + 1) i
            e.registry (omega (arith, small)) free in
        rw found (record {
          some_prompt = fit.0;
          some_tokens = fit.1;
          fits = fit.2;
          known = fit.3;
          room = room;
          unknown_id = ap is_known none_there;
          new_order = (omega arith, below);
          registry = refl;
          incoming = refl;
          counted = (refl, refl);
          kept = refl;
        }))
    | inr named ↦ rw named (elim (Bool-cases (registered input.id e.registry)) [
      | inl twice ↦ rw twice (record {
        registry = refl;
        incoming = refl;
        handles = refl;
        counted = (refl, refl);
        kept = refl;
      })
      | inr once ↦ rw once (record {
        some_prompt = fit.0;
        some_tokens = fit.1;
        fits = fit.2;
        known = fit.3;
        room = room;
        unknown_id = once;
        new_order = (omega arith, omega arith);
        registry = refl;
        incoming = refl;
        counted = (refl, refl);
        kept = refl;
      })
    ])
  ]

  register-IsSubmitted :
      (prompt : List ℕ) (created : ℕ) (stopping : Bool) (e : Engine R)
      → IsFit to_string w m e.config input prompt
      → IsSubmitted m.vocab_size e (register to_string w m input prompt created stopping e)
  unfolding register
  register-IsSubmitted prompt created stopping e fit =
      elim (Bool-cases (stopping || e.has_failed)) [
        | inl down ↦ rw down (record {
          registry = refl;
          incoming = refl;
          handles = refl;
          counted = (refl, refl);
          kept = refl;
        })
        | inr up ↦ rw up (elim (Bool-cases (leb e.config.queue_capacity (length e.registry))) [
          | inl full ↦ rw full (record {
            registry = refl;
            incoming = refl;
            handles = refl;
            counted = (refl, refl);
            kept = refl;
          })
          | inr room ↦
              rw room (name_request-IsSubmitted prompt created e fit (ground (arith, room)))
        ])
      ]

  -- The number of observations does not matter.
  observed-IsSubmitted :
      (e : Engine R) (n : ℕ) (r : Submitted × Engine R)
      → IsSubmitted m.vocab_size (record e { observations = n }) r
      → IsSubmitted m.vocab_size e r
  observed-IsSubmitted e n (accepts r, after) q = record {
    some_prompt = q.some_prompt;
    some_tokens = q.some_tokens;
    fits = q.fits;
    known = q.known;
    room = q.room;
    unknown_id = q.unknown_id;
    new_order = q.new_order;
    registry = q.registry;
    incoming = q.incoming;
    counted = q.counted;
    kept = q.kept;
  }
  observed-IsSubmitted e n (refuses status code, after) q = record {
    registry = q.registry;
    incoming = q.incoming;
    handles = q.handles;
    counted = q.counted;
    kept = q.kept;
  }
  observed-IsSubmitted e n (throws x, after) q = record {
    registry = q.registry;
    incoming = q.incoming;
    handles = q.handles;
    counted = q.counted;
    kept = q.kept;
  }
  observed-IsSubmitted e n (stuck, after) q = q

  -- The generated identifiers being different for different orders, `submit` never runs out of them.
  -- An accepted request is within the limits of the configuration, with a prompt that is not empty
  -- and in the vocabulary; its identifier was free, its order is new, there was room, and it is the
  -- one request that is registered and handed to the thread. A refused one is counted, and the
  -- registry, the incoming requests and the handles are as before. The thread's members are as before
  -- in each case.
  pub submit-IsSubmitted :
      (e : Engine R) → IsSubmitted m.vocab_size e (submit to_string w m input e)
  unfolding submit
  submit-IsSubmitted e =
      passed (checked_prompt to_string w m e.config input)
        (checked_prompt-IsPassed to_string w m e.config input)
    where
      passed :
          (r : Checked (List ℕ))
          → IsPassed to_string w m e.config input r
          → IsSubmitted m.vocab_size e (elim r [
            | fine prompt ↦
                register to_string w m input prompt
                  (w.clock e.observations)
                  (w.stopping (e.observations + 1))
                  (record e { observations = e.observations + 2 })
            | refuse status code ↦
                reject to_string w m
                  (refuses status code)
                  (record e { observations = e.observations + 2 })
            | fail x ↦
                reject to_string w m (throws x) (record e { observations = e.observations + 2 })
          ])
      passed (refuse status code) h = record {
        registry = refl;
        incoming = refl;
        handles = refl;
        counted = (refl, refl);
        kept = refl;
      }
      passed (fail x) h = record {
        registry = refl;
        incoming = refl;
        handles = refl;
        counted = (refl, refl);
        kept = refl;
      }
      passed (fine prompt) h =
          observed-IsSubmitted e (e.observations + 2)
            (register to_string w m input prompt (w.clock e.observations)
              (w.stopping (e.observations + 1)) (record e { observations = e.observations + 2 }))
            (register-IsSubmitted prompt (w.clock e.observations) (w.stopping (e.observations + 1))
              (record e { observations = e.observations + 2 }) h)
