-- ===== src/Http/Canonical.antt =====
-- The canonical form of a header key, http.CanonicalHeaderKey: capitals at the start and behind
-- each dash, small letters elsewhere. A key with a byte that no key may have stays as it is.
use cascade_proxy.Common.{
  ℕ, ◌+◌, ◌-◌, ◌≡◌, refl, Bool, true, ◌&&◌, ◌||◌, [], ◌∷◌, leb, ◌==◌, if◌then◌else◌, any, Text,
  ascii,
}

abbrev pub is_upper : ℕ → Bool
is_upper c = leb b'A' c && leb c b'Z'

abbrev pub is_lower : ℕ → Bool
is_lower c = leb b'a' c && leb c b'z'

unfoldable pub to_upper : ℕ → ℕ
to_upper c = if is_lower c then c - 32 else c

unfoldable pub to_lower : ℕ → ℕ
to_lower c = if is_upper c then c + 32 else c

is_token : ℕ → Bool
unfolding ascii
is_token c =
    is_upper c
    || is_lower c
    || (leb b'0' c && leb c b'9')
    || any (λ d. c == d) (ascii "!#$%&'*+-.^_`|~")

all_tokens : Text → Bool
unfolding is_token
all_tokens [] = true
all_tokens (c ∷ s) = is_token c && all_tokens s

-- `up` says whether the next letter is a capital.
capitalise : Bool → Text → Text
unfolding to_upper to_lower
capitalise up [] = []
capitalise up (c ∷ s) = (if up then to_upper c else to_lower c) ∷ capitalise (c == b'-') s

unfoldable pub canonical : Text → Text
unfolding all_tokens capitalise
canonical key = if all_tokens key then capitalise true key else key

forwarded : canonical (ascii "x-FORWARDED-for") ≡ ascii "X-Forwarded-For"
unfolding canonical ascii
forwarded = refl
