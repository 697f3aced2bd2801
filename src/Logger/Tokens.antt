-- ===== src/Logger/Tokens.antt =====
-- LoggerController.cpp: the tokens of a payload.
use mzntapp_cpp.Base.{◌≡◌, ◌≢◌, false, ◌==◌, List, [], ◌∷◌, ◌++◌, Text, All}

-- The payload that the tokens make.
abbrev pub join : List Text → Text
join [] = []
join (t ∷ []) = t
join (t ∷ u ∷ ts) = t ++ b'-' ∷ join (u ∷ ts)

-- No token holds a dash, and the last one is not empty.
abbrev pub IsPayload : List Text → Type 0
IsPayload [] = Unit
IsPayload (t ∷ []) = All (λ c. (c == b'-') ≡ false) t × (t ≢ [])
IsPayload (t ∷ u ∷ ts) = All (λ c. (c == b'-') ≡ false) t × IsPayload (u ∷ ts)
