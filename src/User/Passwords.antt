-- ===== src/User/Passwords.antt =====
-- Which passwords a user is let in with.
use krnl.Base.{
  ℕ, zero, suc, ◌+◌, ◌<◌, ◌≡◌, ◌≢◌, ◌⊎◌, inl, inr, ◌↔◌, subst, true, false, List, [], ◌∷◌, some,
  arith, ◌==◌,
}
use krnl.Base.Memory.{Memory}
use krnl.Ascii.{char}
use krnl.Ascii.Text.{IsString, IsString-suc}
use krnl.User.{User, fnv_step, fnv_loop, fnv_offset_basis, user_fnv_generator, save, login}

-- The characters of a string, and the hash of a list of them.
pub characters : Memory → ℕ → ℕ → List ℕ
characters m p zero = []
characters m p (suc n) = char m p ∷ characters m (p + 1) n

pub fnv : ℕ → List ℕ → ℕ
fnv hash [] = hash
fnv hash (c ∷ cs) = fnv (fnv_step hash c) cs

fnv_loop-fnv :
    (m : Memory) (p n fuel hash : ℕ)
    → IsString m p n
    → n < fuel
    → fnv_loop fuel m p hash ≡ some (fnv hash (characters m p n))
unfolding fnv_loop fnv characters
fnv_loop-fnv m p zero (suc fuel) hash s h = ground (arith, s.ends)
fnv_loop-fnv m p n zero hash s h = absurd (omega arith)
fnv_loop-fnv m p (suc n) (suc fuel) hash s h = ground (
  arith,
  s.filled 0 (omega arith),
  fnv_loop-fnv m (p + 1) n fuel (fnv_step hash (char m p)) (IsString-suc m p n s) (omega arith),
)

generated :
    (m : Memory) (p n fuel : ℕ)
    → p ≢ 0
    → IsString m p n
    → 0 < n
    → n < fuel
    → user_fnv_generator fuel m p ≡ some (fnv fnv_offset_basis (characters m p n))
unfolding user_fnv_generator
generated m p n fuel h s k f =
    ground (arith, s.filled 0 k, fnv_loop-fnv m p n fuel fnv_offset_basis s f)

login_empty : (m : Memory) (u : User) (q fuel : ℕ) → IsString m q 0 → login fuel m u q ≡ some false
unfolding login
login_empty m u q fuel s = ground (arith, s.ends)

login_filled :
    (m : Memory) (u : User) (q k fuel : ℕ)
    → q ≢ 0
    → IsString m q k
    → 0 < k
    → k < fuel
    → login fuel m u q ≡ some (u.user_fnv == fnv fnv_offset_basis (characters m q k))
unfolding login
login_filled m u q k fuel h s f l = ground (arith, s.filled 0 f, generated m q k fuel h s f l)

-- Once a password is saved, a login with any string is let in exactly if the string is not empty and
-- its hash is the saved password's: with the password itself always.
pub login-save :
    (m m' : Memory) (u : User) (p q n k fuel : ℕ)
    → p ≢ 0
    → q ≢ 0
    → IsString m p n
    → IsString m' q k
    → 0 < n
    → n < fuel
    → k < fuel
    → (u' : User) × (save fuel m u p ≡ some (true, u'))
      × ((login fuel m' u' q ≡ some true) ↔ (
          (0 < k)
          × (fnv fnv_offset_basis (characters m' q k) ≡ fnv fnv_offset_basis (characters m p n))))
unfolding save
login-save m m' u p q n k fuel hp hq sp sq filled fn fk =
    let hash = generated m p n fuel hp sp filled fn in
    let u' = record u { user_fnv = fnv fnv_offset_basis (characters m p n) } in
    (
      u',
      ground (arith, sp.filled 0 filled, hash),
      (
        λ e. elim (empty k) [
          | inl none_there ↦
              ground (arith, login_empty m' u' q fuel (subst (IsString m' q) none_there sq))
          | inr there ↦ (there, ground (arith, login_filled m' u' q k fuel hq sq there fk))
        ],
        λ (there, same). ground (arith, login_filled m' u' q k fuel hq sq there fk),
      ),
    )
  where
    empty : (k : ℕ) → (k ≡ 0) ⊎ (0 < k)
    empty k = omega arith
