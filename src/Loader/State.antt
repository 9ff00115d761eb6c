-- ===== src/Loader/State.antt =====
-- The state of `robot::loader` and the actions on it. `S` is what the slave classes keep.
use mathlib.Core.Bool.{cond, not, ◌||◌}
use robotd.Common.{
  ℕ, ◌++◌, Bytes, ℤ, Bool, true, false, Option, none, some, List, [], ◌∷◌, ◌≡◌, refl, sym, ap, ◌∙◌,
}
use robotd.Loader.Level.{Level}
use robotd.Loader.Size.{SizeError, failure}

-- The arguments of `rotating_file_sink_mt` and of the logger over it.
pub record Sink : Type 0 where
  pub base : Bytes
  pub max_size : ℕ

pub record Logger : Type 0 where
  pub tag : Bytes
  pub sink : Sink
  pub level : Level

-- What a failed load says, to the log file if `log_to_file`, and else to `cerr`; `loaded_options` is
-- the summary that is printed on success.
pub data Report : Type 0 where
  no_file bad_syntax no_log_name no_log_file : Report
  bad_threads : ℕ → ℤ → Report
  bad_level : Bytes → Report
  bad_size : SizeError → Report
  loaded_options : ℕ → Bytes → Bytes → Bytes → ℕ → Report

pub record Loader (S : Type 0) : Type 0 where
  pub log_to_file : Bool
  pub thread_count : ℕ
  pub lev : Level
  pub sink : Option Sink
  pub ramsize : ℕ
  -- the member `log` of the object that loads, null at first
  pub log : Option Logger
  pub reports : List (Bool × Report)
  pub slaves : S

-- A function goes on, returns a number early, or ends the program: an exception that nobody
-- catches, or a call through a null pointer.
pub data Flow (A : Type 0) : Type 0 where
  next : A → Flow A
  return : ℤ → Flow A
  abort : Flow A

abbrev pub M : Type 0 → Type 0 → Type 0
M S A = Loader S → Flow A × Loader S

abbrev pub is_some : Option Logger → Bool
is_some none = false
is_some (some l) = true

module _ {S : Type 0} where
  -- Whether a message can be written: `log` is used only when `log_to_file` is set.
  abbrev pub can_report : Loader S → Bool
  can_report s = not s.log_to_file || is_some s.log

module _ {S A B : Type 0} where
  abbrev pub continue : Flow A → (A → M S B) → M S B
  continue (next a) f s = f a s
  continue (return n) f s = (return n, s)
  continue abort f s = (abort, s)

  infixl 5 ◌>>=◌ ◌>>◌
  abbrev pub ◌>>=◌ : M S A → (A → M S B) → M S B
  ◌>>=◌ m f s = let (r, t) = m s in continue r f t

  abbrev pub ◌>>◌ : M S A → M S B → M S B
  m >> n = m >>= λ _. n

module _ {S A : Type 0} where
  abbrev pub pure : A → M S A
  pure a s = (next a, s)

  abbrev pub fatal : M S A
  fatal s = (abort, s)

  abbrev pub return_now : ℤ → M S A
  return_now n s = (return n, s)

  infix 1 if◌then◌else◌
  abbrev pub if◌then◌else◌ : Bool → M S A → M S A → M S A
  if◌then◌else◌ b m n s = cond b (m s) (n s)

  -- The two branches of every error: the message, and CHILD_NEED_WORK or -1.
  abbrev pub fail : Report → M S A
  fail r s =
      cond (can_report s)
        (
          return (failure s.log_to_file),
          record s { reports = s.reports ++ (s.log_to_file, r) ∷ [] },
        )
        (abort, s)

module _ {S : Type 0} where
  abbrev pub get : M S (Loader S)
  get s = (next s, s)

  abbrev pub put : Loader S → M S Unit
  put t s = (next tt, t)

  abbrev pub report : Report → M S Unit
  report r s = (next tt, record s { reports = s.reports ++ (s.log_to_file, r) ∷ [] })

-- What holds of the state before an action holds after it, however the action ends.
pub record Keeps {S A : Type 0} (P : Loader S → Type 0) (m : M S A) : Type 0 where
  pub kept : (s : Loader S) → P s → P (m s).1

-- What holds of the state when an action goes on.
pub record Ensures {S A : Type 0} (Q : Loader S → Type 0) (m : M S A) : Type 0 where
  pub ensured : (s : Loader S) (a : A) → (m s).0 ≡ next a → Q (m s).1

module _ {S A B : Type 0} {P : Loader S → Type 0} where
  Keeps-continue :
      (r : Flow A) (f : A → M S B) (s : Loader S)
      → ((a : A) → Keeps P (f a))
      → P s
      → P (continue r f s).1
  Keeps-continue (next a) f s k p = (k a).kept s p
  Keeps-continue (return n) f s k p = p
  Keeps-continue abort f s k p = p

  pub Keeps-bind :
      (m : M S A) (f : A → M S B) → Keeps P m → ((a : A) → Keeps P (f a)) → Keeps P (m >>= f)
  Keeps-bind m f km kf = record {
    kept = λ s p. let (r, t) = m s in Keeps-continue r f t kf (km.kept s p);
  }

  Ensures-continue :
      (r : Flow A) (f : A → M S B) (s : Loader S) (b : B)
      → ((a : A) → Ensures P (f a))
      → (continue r f s).0 ≡ next b
      → P (continue r f s).1
  Ensures-continue (next a) f s b k h = (k a).ensured s b h
  Ensures-continue (return n) f s b k h = cc
  Ensures-continue abort f s b k h = cc

  pub Ensures-bind : (m : M S A) (f : A → M S B) → ((a : A) → Ensures P (f a)) → Ensures P (m >>= f)
  Ensures-bind m f kf = record {
    ensured = λ s b h. let (r, t) = m s in Ensures-continue r f t b kf h;
  }

  then_kept :
      (r : Flow A) (f : A → M S B) (t : Loader S) (b : B)
      → ((a : A) → Keeps P (f a))
      → ((a : A) → r ≡ next a → P t)
      → (continue r f t).0 ≡ next b
      → P (continue r f t).1
  then_kept (next a) f t b k p h = (k a).kept t (p a refl)
  then_kept (return n) f t b k p h = cc
  then_kept abort f t b k p h = cc

  -- What an action ensures, those after it may keep.
  pub Ensures-then :
      (m : M S A) (f : A → M S B) → Ensures P m → ((a : A) → Keeps P (f a)) → Ensures P (m >>= f)
  Ensures-then m f em kf = record {
    ensured = λ s b h. let (r, t) = m s in then_kept r f t b kf (em.ensured s) h;
  }

module _ {S A B : Type 0} where
  next-continue :
      (r : Flow A) (f : A → M S B) (t : Loader S) (b : B)
      → (continue r f t).0 ≡ next b
      → (a : A) × (r ≡ next a) × ((f a t).0 ≡ next b)
  next-continue (next a) f t b h = (a, refl, h)
  next-continue (return n) f t b h = cc
  next-continue abort f t b h = cc

  -- If two actions go on, the first does, and the second behind it.
  pub next-bind :
      (m : M S A) (f : A → M S B) (s : Loader S) (b : B)
      → ((m >>= f) s).0 ≡ next b
      → (a : A) × ((m s).0 ≡ next a) × ((f a (m s).1).0 ≡ next b)
  next-bind m f s b h = let (r, t) = m s in next-continue r f t b h

  pub next-then :
      (m : M S A) (f : A → M S B) (s t : Loader S) (a : A) (b : B)
      → m s ≡ (next a, t)
      → ((m >>= f) s).0 ≡ next b
      → (f a t).0 ≡ next b
  next-then m f s t a b e h = sym (ap (λ r. (continue r.0 f r.1).0) e) ∙ h
