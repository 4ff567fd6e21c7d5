-- ===== src/Calls.antt =====
-- A call of the index or of an executor: it takes a state and returns it with a result, or with the
-- exception it ends in; `none` is a call that does not return.
use claude_opus.Base.{Option, none, some}
use claude_opus.Errors.{Error, Result, ok, throw}

abbrev pub M : Type 0 → Type 0 → Type 0
M S A = S → Option (S × Result A)

abbrev pub bind : {S A B : Type 0} → Option (S × Result A) → (A → M S B) → Option (S × Result B)
bind (some (s, ok a)) f = f a s
bind (some (s, throw e)) f = some (s, throw e)
bind none f = none

infixl 5 ◌>>=◌ ◌>>◌
abbrev pub ◌>>=◌ : {S A B : Type 0} → M S A → (A → M S B) → M S B
◌>>=◌ m f s = bind (m s) f

abbrev pub ◌>>◌ : {S B : Type 0} → M S (Unit {0}) → M S B → M S B
m >> k = m >>= λ _. k

abbrev pub return : {S A : Type 0} → A → M S A
return a s = some (s, ok a)

abbrev pub modify : {S : Type 0} → (S → S) → M S (Unit {0})
modify f s = some (f s, ok tt)

abbrev pub asks : {S A : Type 0} → (S → A) → M S A
asks f s = some (s, ok (f s))

abbrev pub raise : {S A : Type 0} → Error → M S A
raise e s = some (s, throw e)
