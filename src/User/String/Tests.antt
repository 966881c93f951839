-- ===== src/User/String/Tests.antt =====
-- The strings "a,b" at 100, "," at 200 and "ab" at 300 in a memory of the byte 7.
use exyde.Common.{
  ℕ, suc, ◌≡◌, refl, [], ◌∷◌, List, Option, some, none, arith, bytes, update, negsuc,
}
use exyde.User.String.{Mem, IsString}
use exyde.User.String.Memory.{memmove, copied, forward, backward, memmove-copied}
use exyde.User.String.Length.{strcmp, strcmp-compare}
use exyde.User.String.Copy.{strcat}
use exyde.User.String.Strings.{strcat-IsString}
use exyde.User.String.Search.{strstr, strtok, is_in, skip_loop, token_loop}
use exyde.User.String.Search.Chars.{strstr-first_match}
use exyde.User.String.Search.Tokens.{IsToken, strtok-IsToken}

-- `a[i], a[i + 1], ... = xs`.
abbrev put : Mem → ℕ → List ℕ → Mem
put mem i [] = mem
put mem i (x ∷ xs) = put (update mem i x) (suc i) xs

abbrev memory : Mem
memory =
    put (put (put (λ i. 7) 100 (97 ∷ 44 ∷ 98 ∷ 0 ∷ [])) 200 (44 ∷ 0 ∷ [])) 300 (97 ∷ 98 ∷ 0 ∷ [])

abbrev a_b : List ℕ
a_b = 97 ∷ 44 ∷ 98 ∷ []

a_b-IsString : IsString memory 100 a_b
a_b-IsString =
    (refl, (λ e. omega arith), (refl, (λ e. omega arith), (refl, (λ e. omega arith), refl)))

comma-IsString : IsString memory 200 (44 ∷ [])
comma-IsString = (refl, (λ e. omega arith), refl)

ab-IsString : IsString memory 300 (97 ∷ 98 ∷ [])
ab-IsString = (refl, (λ e. omega arith), (refl, (λ e. omega arith), refl))

moves_up_over_itself : bytes (memmove memory 101 100 3) 100 5 ≡ 97 ∷ 97 ∷ 44 ∷ 98 ∷ 7 ∷ []
unfolding memmove forward backward
moves_up_over_itself = refl

-- The token "a" at 100, and "b" is left at 102.
first_token : strtok 4 (some 100) 200 none memory ≡ some (some 100, some 102, update memory 101 0)
unfolding strtok is_in skip_loop token_loop
first_token = refl

memmove-copied_example : memmove memory 101 100 3 ≡ copied memory 101 100 3
memmove-copied_example = memmove-copied memory 101 100 3

strcmp-compare_example : strcmp 4 memory 100 300 ≡ some (negsuc 53)
strcmp-compare_example =
    strcmp-compare 4 memory 100 300 a_b (97 ∷ 98 ∷ []) a_b-IsString ab-IsString (omega arith)

strcat-IsString_example :
    let mem' = copied memory 302 100 4 in
    (strcat 4 memory 300 100 ≡ some mem') × IsString mem' 300 (97 ∷ 98 ∷ 97 ∷ 44 ∷ 98 ∷ [])
strcat-IsString_example =
    strcat-IsString 4 memory 300 100 (97 ∷ 98 ∷ []) a_b ab-IsString a_b-IsString refl (omega arith)
      (omega arith)

strstr-first_match_example : strstr 4 memory 100 200 ≡ some (some 101)
strstr-first_match_example =
    strstr-first_match 4 memory 100 200 a_b (44 ∷ []) a_b-IsString comma-IsString (omega arith)
      (omega arith)

strtok-IsToken_example :
    (r : Option ℕ × Option ℕ × Mem) × (strtok 4 (some 100) 200 none memory ≡ some r)
    × IsToken memory 100 (44 ∷ []) a_b r
strtok-IsToken_example =
    strtok-IsToken 4 memory 200 (44 ∷ []) comma-IsString (omega arith) 100 none a_b a_b-IsString
      (omega arith)
