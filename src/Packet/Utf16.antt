-- ===== src/Packet/Utf16.antt =====
-- `utf16.Decode` of the standard library, which `ReadString` calls.
use la2go.Prelude.{ℕ, ◌+◌, ◌-◌, ◌*◌, List, [], ◌∷◌, Bool, ◌&&◌, ◌||◌, leb, ltb, if◌then◌else◌}

abbrev pub replacement : ℕ
replacement = 0xfffd

abbrev pub is_high : ℕ → Bool
is_high u = leb 0xd800 u && ltb u 0xdc00

abbrev pub is_low : ℕ → Bool
is_low u = leb 0xdc00 u && ltb u 0xe000

abbrev pub join_surrogates : ℕ → ℕ → ℕ
join_surrogates high low = (high - 0xd800) * 0x400 + (low - 0xdc00) + 0x10000

-- A pair of surrogates is one code point; a surrogate alone is replaced.
unfoldable pub utf16_decode : List ℕ → List ℕ
utf16_decode [] = []
utf16_decode (u ∷ []) = (if is_high u || is_low u then replacement else u) ∷ []
utf16_decode (u ∷ v ∷ units) =
    let alone = (if is_high u || is_low u then replacement else u) ∷ utf16_decode (v ∷ units) in
    let pair = join_surrogates u v ∷ utf16_decode units in
    if is_high u && is_low v then pair else alone
