-- ===== src/Gateway/Run.antt =====
-- What a run of a handler of internal/gateway does, by its result: a panic, or a return with its
-- effects. The effects of two runs in sequence add up.
use mathlib.Core.List.{append_assoc}
use semblance.Cache.Valid.{All}
use semblance.Gateway.World.{
  Env, World, Server, Action, Call, pure, ◌>>=◌, respond_by, continue, count, shared, give_back,
  requests_total,
}
use semblance.Gateway.Writer.{Writer}
use semblance.Prelude.{
  ◌⊎◌, inl, inr, ℕ, ◌+◌, ◌≤◌, ◌≡◌, refl, sym, ap, subst, ◌∙◌, Bool, true, false, ◌||◌, List, [],
  ◌∷◌, ◌++◌, Option, none, some, arith, length, length-append,
}
use semblance.Text.{Text}

abbrev pub is_request : {F : Type 0} → Call F → ℕ
is_request (requests_total o) = 1
is_request c = 0

-- The calls on the counter of requests.
unfoldable pub requests : {F : Type 0} → List (Call F) → ℕ
requests [] = 0
requests (c ∷ cs) = is_request c + requests cs

-- At most `n` bodies were sent on top of `before`, each of them `body`.
abbrev pub Sent : Text → ℕ → List Text → List Text → Type 0
Sent body n before after =
    (xs : List Text) × (after ≡ xs ++ before) × All (λ x. x ≡ body) xs × (length xs ≤ n)

All-append : {A : Type 0} (P : A → Type 0) (xs ys : List A) → All P xs → All P ys → All P (xs ++ ys)
All-append P [] ys p q = q
All-append P (x ∷ xs) ys (p, ps) q = (p, All-append P xs ys ps q)

Sent-trans :
    {body : Text} {n m : ℕ} {a b c : List Text}
    → Sent body n a b
    → Sent body m b c
    → Sent body (n + m) a c
Sent-trans {body = body} {a = a} (xs, e, p, h) (ys, e', p', h') = (
  ys ++ xs,
  e' ∙ ap (◌++◌ ys) e ∙ sym (append_assoc ys xs a),
  All-append (λ x. x ≡ body) ys xs p' p,
  omega (arith, length-append ys xs),
)

-- `Q` holds of the value, or `P` if there is none.
abbrev pub Held : {A : Type 0} → Type 0 → (A → Type 0) → Option A → Type 0
Held P Q none = P
Held P Q (some a) = Q a

-- `P` is what a panic shows, and `I` an invariant of the server.
module _ {F S R : Type 0} (P : Type 0) (I : Server F S R → Type 0) (body : Text) where
  -- From `w` to `w'`, `j` requests are counted, at most `n` bodies are sent, and if `b` holds or
  -- the client had its answer before, it has it now.
  pub record Ran (j n : ℕ) (b : Bool) (w w' : World F S R) : Type 0 where
    pub kept : I w'.server
    pub counted : requests w'.calls ≡ j + requests w.calls
    pub sent : Sent body n w.fetched w'.fetched
    pub answered : (b || w.writer.wrote_header) ≡ true → w'.writer.wrote_header ≡ true

  abbrev pub Ends : ℕ → ℕ → Bool → World F S R → {A : Type 0} → Option A × World F S R → Type 0
  Ends j n b w r = elim r.0 [ none ↦ P | some _ ↦ Ran j n b w r.1 ]

  pub record Does (j n : ℕ) (b : Bool) {A : Type 0} (m : Action F S R A) : Type 0 where
    pub ends : (w : World F S R) → I w.server → Ends j n b w (m w)

  Ran-same :
      {w w' : World F S R}
      → I w'.server
      → w'.calls ≡ w.calls
      → w'.fetched ≡ w.fetched
      → (w.writer.wrote_header ≡ true → w'.writer.wrote_header ≡ true)
      → Ran 0 0 false w w'
  Ran-same i c f h = record {
    kept = i;
    counted = omega (arith, ap requests c);
    sent = ([], f, tt, omega arith);
    answered = h;
  }

  or_cases : (x y z : Bool) → ((x || y) || z) ≡ true → (y ≡ true) ⊎ ((x || z) ≡ true)
  or_cases x y z h = ground arith

  Ran-trans :
      {j n j' n' : ℕ} {b b' : Bool} {w w' w'' : World F S R}
      → Ran j n b w w'
      → Ran j' n' b' w' w''
      → Ran (j + j') (n + n') (b || b') w w''
  Ran-trans {j} {n} {j'} {n'} {b} {b'} {w} {w'} {w''} x y = record {
    kept = y.kept;
    counted = omega (arith, x.counted, y.counted);
    sent = Sent-trans x.sent y.sent;
    answered = λ h. elim (or_cases b b' w.writer.wrote_header h) [
      | inl b'_holds ↦ y.answered (rw b'_holds refl)
      | inr before ↦ y.answered (ground (arith, x.answered before))
    ];
  }

  Ran-weaken :
      {j n n' : ℕ} {b b' : Bool} {w w' : World F S R}
      → n ≤ n'
      → (b' ≡ true → b ≡ true)
      → Ran j n b w w'
      → Ran j n' b' w w'
  Ran-weaken {b = b} {b' = b'} {w = w} h e x =
      let (xs, eq, all, short) = x.sent in
      record {
        kept = x.kept;
        counted = x.counted;
        sent = (xs, eq, all, omega (arith, h, short));
        answered = λ y. x.answered (ground (arith, e, y));
      }

  bind-Ends :
      (j n j' n' : ℕ) (b b' : Bool) (w : World F S R) {A B : Type 0} (r : Option A × World F S R)
      (f : A → Action F S R B)
      → Ends j n b w r
      → ((a : A) → Does j' n' b' (f a))
      → Ends (j + j') (n + n') (b || b') w (continue r f)
  bind-Ends j n j' n' b b' w (none, w1) f x y = x
  bind-Ends j n j' n' b b' w {B = B} (some a, w1) f x y = after (f a w1) ((y a).ends w1 x.kept)
    where
      after :
          (q : Option B × World F S R) → Ends j' n' b' w1 q → Ends (j + j') (n + n') (b || b') w q
      after (none, w2) z = z
      after (some c, w2) z = Ran-trans x z

  pub bind-Does :
      {j n j' n' : ℕ} {b b' : Bool} {A B : Type 0} {m : Action F S R A} {f : A → Action F S R B}
      → Does j n b m
      → ((a : A) → Does j' n' b' (f a))
      → Does (j + j') (n + n') (b || b') (m >>= f)
  unfolding ◌>>=◌
  bind-Does {j} {n} {j'} {n'} {b} {b'} {m = m} {f = f} x y = record {
    ends = λ w i. bind-Ends j n j' n' b b' w (m w) f (x.ends w i) y;
  }

  pub weaken-Does :
      {j n n' : ℕ} {b b' : Bool} {A : Type 0} {m : Action F S R A}
      → n ≤ n'
      → (b' ≡ true → b ≡ true)
      → Does j n b m
      → Does j n' b' m
  weaken-Does {j} {n} {n'} {b} {b'} {A} {m} h e x = record { ends = λ w i. go w (m w) (x.ends w i) }
    where
      go : (w : World F S R) (r : Option A × World F S R) → Ends j n b w r → Ends j n' b' w r
      go w (none, w') z = z
      go w (some a, w') z = Ran-weaken h e z

  -- Before a run goes on, nothing that counts has happened.
  pub seq-Does :
      {j n : ℕ} {b : Bool} {A B : Type 0} {m : Action F S R A} {f : A → Action F S R B}
      → Does 0 0 false m
      → ((a : A) → Does j n b (f a))
      → Does j n b (m >>= f)
  seq-Does {j} {n} {b} {m = m} {f = f} x y =
      subst (λ (i : ℕ). Does i n b (m >>= f)) (omega arith)
        (subst (λ (i : ℕ). Does (0 + j) i b (m >>= f)) (omega arith) (bind-Does x y))

  pub pure-Does : {A : Type 0} (a : A) → Does 0 0 false (pure a)
  unfolding pure
  pure-Does a = record { ends = λ w i. Ran-same i refl refl (λ h. h) }

  pub count-Does : (c : Call F) → Does (is_request c) 0 false (count c)
  unfolding requests count
  count-Does c = record {
    ends = λ w i. record {
      kept = i;
      counted = refl;
      sent = ([], refl, tt, omega arith);
      answered = λ h. h;
    };
  }

  -- A write to the response that takes no answer back; with `b`, one that answers.
  pub respond-Does :
      (b : Bool) (f : Writer → Writer)
      → ((w : Writer) → (b || w.wrote_header) ≡ true → (f w).wrote_header ≡ true)
      → Does 0 0 b (respond_by f)
  unfolding respond_by
  respond-Does b f h = record {
    ends = λ w i. record {
      kept = i;
      counted = omega arith;
      sent = ([], refl, tt, omega arith);
      answered = h w.writer;
    };
  }

  abbrev settle :
      {A : Type 0} → World F S R → Server F S R → Option (A × Server F S R) → Option A × World F S R
  settle w s r = elim r [
    | none ↦ (none, record w { server = s; clock = w.clock + 1 })
    | some (a, s') ↦ (some a, record w { server = s'; clock = w.clock + 1 })
  ]

  -- An access to the server, where the others keep the invariant.
  pub shared-Does :
      (env : Env F S R)
      → ((n : ℕ) (s : Server F S R) → I s → I (env.others n s))
      → {A : Type 0} (op : ℕ → Server F S R → Option (A × Server F S R))
      → ((n : ℕ) (s : Server F S R) → I s → Held P (λ q. I q.1) (op n s))
      → Does 0 0 false (shared env op)
  unfolding shared
  shared-Does env calm {A} op safe = record {
    ends = λ w i.
        let s = env.others w.clock w.server in
        go w s (op w.clock s) (safe w.clock s (calm w.clock w.server i));
  }
    where
      go :
          (w : World F S R) (s : Server F S R) (r : Option (A × Server F S R))
          → Held P (λ q. I q.1) r
          → Ends 0 0 false w (settle w s r)
      go w s none p = p
      go w s (some (a, s')) p = Ran-same p refl refl (λ h. h)

  pub Held-give_back :
      {X Y A : Type 0} (put : X → Server F S R) (result : Y → A) (r : Option (X × Y))
      → Held P (λ q. I (put q.0)) r
      → Held {A = A × Server F S R} P (λ q. I q.1) (give_back put result r)
  Held-give_back put result none p = p
  Held-give_back put result (some (x, y)) p = p

module _ {F S R : Type 0} {P : Type 0} {I : Server F S R → Type 0} {body : Text} where
  infixr 1 ◌next◌
  pub ◌next◌ :
      {j n : ℕ} {b : Bool} {A B : Type 0} {m : Action F S R A} {g : A → Action F S R B}
      → Does P I body 0 0 false m
      → ((a : A) → Does P I body j n b (g a))
      → Does P I body j n b (m >>= g)
  ◌next◌ x y = seq-Does P I body x y
