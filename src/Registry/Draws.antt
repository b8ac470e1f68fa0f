-- ===== src/Registry/Draws.antt =====
-- server/src/registry.rs, `random_token`, `random_id` and `random_pin`: texts made of drawn indices.
-- The generator is not part of the repository; its draws are an argument, one list of indices for
-- each text that is made.
use Prim.Native.String.{char_at}
use rcdesk.Common.{ℕ, String, List, [], ◌∷◌}

abbrev pub id_chars : String
id_chars = "abcdefghijklmnopqrstuvwxyz0123456789"

abbrev pub digit_chars : String
digit_chars = "0123456789"

abbrev pub id_len : ℕ
id_len = 16

abbrev pub pin_len : ℕ
pin_len = 6

-- The alphabet's character for each drawn index.
unfoldable pub pick_all : String → List ℕ → String
pick_all alphabet [] = ""
pick_all alphabet (i ∷ is) = String.◌∷◌ (char_at alphabet i) (pick_all alphabet is)

unfoldable pub random_token : List ℕ → String
unfolding pick_all
random_token draws = pick_all id_chars draws

unfoldable pub random_id : List ℕ → String
unfolding random_token
random_id draws = random_token draws

unfoldable pub random_pin : List ℕ → String
unfolding pick_all
random_pin draws = pick_all digit_chars draws

-- The draws that lie ahead: a list for each text.
abbrev pub Draws : Type 0
Draws = List (List ℕ)

-- How a routine that draws ends. The code loops while its draws are taken, so it `starved` where
-- the given draws do not reach; `panicked` is a failed `expect`.
pub data Outcome {ℓ} (A : Type ℓ) : Type ℓ where
  done : A → Outcome A
  starved : Outcome A
  panicked : Outcome A

infixl 5 ◌>>=◌
abbrev pub ◌>>=◌ {ℓ κ} : {A : Type ℓ} {B : Type κ} → Outcome A → (A → Outcome B) → Outcome B
done a >>= f = f a
starved >>= f = starved
panicked >>= f = panicked

-- Whatever value the routine ends with satisfies `P`, and it does not panic. It may be starved.
abbrev pub Ensures {ℓ} : {A : Type ℓ} → (A → Type 0) → Outcome A → Type 0
Ensures P (done a) = P a
Ensures P starved = Unit
Ensures P panicked = ⊥

pub >>=-Ensures {ℓ κ} :
    {A : Type ℓ} {B : Type κ} (P : A → Type 0) (Q : B → Type 0) (m : Outcome A) (f : A → Outcome B)
    → Ensures P m
    → ((a : A) → P a → Ensures Q (f a))
    → Ensures Q (m >>= f)
>>=-Ensures P Q (done a) f h k = k a h
>>=-Ensures P Q starved f h k = tt
>>=-Ensures P Q panicked f h k = absurd h

pub Ensures-map {ℓ} :
    {A : Type ℓ} (P Q : A → Type 0) (m : Outcome A)
    → ((a : A) → P a → Q a)
    → Ensures P m
    → Ensures Q m
Ensures-map P Q (done a) k h = k a h
Ensures-map P Q starved k h = tt
Ensures-map P Q panicked k h = absurd h

pub Ensures-both {ℓ} :
    {A : Type ℓ} (P Q : A → Type 0) (m : Outcome A)
    → Ensures P m
    → Ensures Q m
    → Ensures (λ a. P a × Q a) m
Ensures-both P Q (done a) h k = (h, k)
Ensures-both P Q starved h k = tt
Ensures-both P Q panicked h k = absurd h
