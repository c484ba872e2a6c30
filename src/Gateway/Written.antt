-- ===== src/Gateway/Written.antt =====
-- Writes to the client (internal/gateway/middleware.go, errors.go and chat.go), and what reaches it.
use mathlib.Core.List.{append_assoc, append-nil}
use semblance.Gateway.Upstream.{relay_stream, concat}
use semblance.Gateway.Writer.{ErrorBody, Writer, write, write_header, write_error}
use semblance.Prelude.{
  ℕ, ◌+◌, ◌⊎◌, inl, inr, ◌≡◌, refl, sym, ap, ◌∙◌, Bool, true, false, List, [], ◌∷◌, ◌++◌, arith,
  Bool-cases, take, suc, length,
}
use semblance.Text.{Text}

pub write_header-wrote : (code : ℕ) (w : Writer) → (write_header code w).wrote_header ≡ true
unfolding write_header
write_header-wrote code w = ground arith

pub write-wrote : (bytes : Text) (w : Writer) → (write bytes w).wrote_header ≡ true
unfolding write
write-wrote bytes w = write_header-wrote 200 w

pub write_error-wrote :
    (encode : ErrorBody → Text) (status : ℕ) (type message : Text) (w : Writer)
    → (write_error encode status type message w).wrote_header ≡ true
unfolding write_error
write_error-wrote encode status type message w = write-wrote _ _

pub write-status :
    (bytes : Text) (w : Writer) → w.wrote_header ≡ true → (write bytes w).status ≡ w.status
unfolding write write_header
write-status bytes w h = rw h refl

pub write-header : (bytes : Text) (w : Writer) → (write bytes w).header ≡ w.header
unfolding write write_header
write-header bytes w = ground arith

pub write-body : (bytes : Text) (w : Writer) → (write bytes w).body ≡ w.body ++ bytes
unfolding write write_header
write-body bytes w = ground arith

-- What the client has after a copied body: the first chunks, in order and unchanged, after what it
-- had; if some are missing, it has refused a write.
pub record IsRelayed (accepts : ℕ → Bool) (chunks : List Text) (w w' : Writer) : Type 0 where
  pub taken :
      (k : ℕ) × (w'.body ≡ w.body ++ concat (take k chunks))
      × ((k ≡ length chunks) ⊎ ((n : ℕ) × (accepts n ≡ false)))
  pub status : w'.status ≡ w.status
  pub header : w'.header ≡ w.header
  pub wrote : w'.wrote_header ≡ true

write-IsRelayed :
    (accepts : ℕ → Bool) (chunk : Text) (chunks : List Text) (w w' : Writer)
    → w.wrote_header ≡ true
    → IsRelayed accepts chunks (write chunk w) w'
    → IsRelayed accepts (chunk ∷ chunks) w w'
unfolding concat
write-IsRelayed accepts chunk chunks w w' h r =
    let (k, eq, why) = r.taken in
    record {
      taken = (
        suc k,
        eq
            ∙ ap (λ (t : Text). t ++ concat (take k chunks)) (write-body chunk w)
            ∙ append_assoc w.body chunk (concat (take k chunks)),
        elim why [ inl all ↦ inl (omega arith) | inr refused ↦ inr refused ],
      );
      status = r.status ∙ write-status chunk w h;
      header = r.header ∙ write-header chunk w;
      wrote = r.wrote;
    }

-- An empty chunk adds nothing.
skip-IsRelayed :
    (accepts : ℕ → Bool) (chunks : List Text) (w w' : Writer)
    → IsRelayed accepts chunks w w'
    → IsRelayed accepts ([] ∷ chunks) w w'
unfolding concat
skip-IsRelayed accepts chunks w w' r =
    let (k, eq, why) = r.taken in
    record {
      taken = (suc k, eq, elim why [ inl all ↦ inl (omega arith) | inr refused ↦ inr refused ]);
      status = r.status;
      header = r.header;
      wrote = r.wrote;
    }

pub relay_stream-IsRelayed :
    (accepts : ℕ → Bool) (i : ℕ) (chunks : List Text) (w : Writer)
    → w.wrote_header ≡ true
    → IsRelayed accepts chunks w (relay_stream accepts i chunks w)
unfolding relay_stream concat
relay_stream-IsRelayed accepts i [] w h = record {
  taken = (0, sym (append-nil w.body), inl refl);
  status = refl;
  header = refl;
  wrote = h;
}
relay_stream-IsRelayed accepts i ([] ∷ chunks) w h =
    skip-IsRelayed accepts chunks w _ (relay_stream-IsRelayed accepts i chunks w h)
relay_stream-IsRelayed accepts i ((c ∷ cs) ∷ chunks) w h = elim (Bool-cases (accepts i)) [
  | inl taken ↦ rw taken (
      write-IsRelayed accepts (c ∷ cs) chunks w _ h
        (relay_stream-IsRelayed accepts (i + 1) chunks (write (c ∷ cs) w) (write-wrote (c ∷ cs) w)))
  | inr lost ↦ rw lost (record {
    taken = (0, sym (append-nil w.body), inr (i, lost));
    status = refl;
    header = refl;
    wrote = h;
  })
]

pub relay_stream-wrote :
    (accepts : ℕ → Bool) (i : ℕ) (chunks : List Text) (w : Writer)
    → w.wrote_header ≡ true
    → (relay_stream accepts i chunks w).wrote_header ≡ true
relay_stream-wrote accepts i chunks w h = (relay_stream-IsRelayed accepts i chunks w h).wrote

pub write_header-header : (code : ℕ) (w : Writer) → (write_header code w).header ≡ w.header
unfolding write_header
write_header-header code w = ground arith
