-- ===== src/Chatbot/Text.antt =====
-- services/chatbot/text.py: the tokens of a text, the Dutch stopwords, the curated compounds, the
-- split of a compound word into words of a vocabulary, and the expansion of a token list.
-- The memo of `_best_segmentation` is passed along as a dict. The recursion goes by fuel; one more
-- than the length of the word is always enough.
pub mod Segmentation
pub mod Decompound
mod Tests
use Prim.Native.Char.{Char, code}
use Prim.Native.String.{◌++◌ as text_append}
use onegov2_spatial_assistan.Prelude.{
  ℕ, zero, suc, ◌+◌, ◌-◌, ◌*◌, String, ◌≡◌, refl, Bool, true, false, not, ◌&&◌, ◌||◌, Option, none,
  some, List, [], ◌∷◌, ◌++◌, Dict, lookup, insert, has_key, length, keep, ltb, leb, eqb, ◌==◌,
  chars, text_take, text_drop, one_of, lower, is_digit, is_letter, is_alpha, if◌then◌else◌, map,
  is_empty,
}

-- DUTCH_STOPWORDS
abbrev pub dutch_stopwords : List String
dutch_stopwords =
    "de" ∷ "het" ∷ "een" ∷ "en" ∷ "of" ∷ "maar" ∷ "want" ∷ "dus" ∷ "als" ∷ "dan" ∷ "toch" ∷ "ook"
    ∷ "al" ∷ "niet" ∷ "geen" ∷ "wel" ∷ "van" ∷ "voor" ∷ "met" ∷ "aan" ∷ "op" ∷ "in" ∷ "uit" ∷ "om"
    ∷ "bij" ∷ "naar" ∷ "te" ∷ "tot" ∷ "door" ∷ "over" ∷ "onder" ∷ "tussen" ∷ "per" ∷ "tegen"
    ∷ "sinds" ∷ "vanaf" ∷ "binnen" ∷ "buiten" ∷ "zonder" ∷ "via" ∷ "ik" ∷ "jij" ∷ "je" ∷ "u" ∷ "hij"
    ∷ "zij" ∷ "ze" ∷ "wij" ∷ "we" ∷ "jullie" ∷ "men" ∷ "dit" ∷ "dat" ∷ "deze" ∷ "die" ∷ "er"
    ∷ "hier" ∷ "daar" ∷ "mijn" ∷ "jouw" ∷ "uw" ∷ "zijn" ∷ "haar" ∷ "hun" ∷ "ons" ∷ "onze" ∷ "is"
    ∷ "zijn" ∷ "was" ∷ "waren" ∷ "wordt" ∷ "worden" ∷ "werd" ∷ "werden" ∷ "ben" ∷ "bent" ∷ "heb"
    ∷ "hebt" ∷ "heeft" ∷ "hadden" ∷ "had" ∷ "kan" ∷ "kunnen" ∷ "kon" ∷ "konden" ∷ "zal" ∷ "zullen"
    ∷ "zou" ∷ "zouden" ∷ "moet" ∷ "moeten" ∷ "mag" ∷ "mogen" ∷ "wil" ∷ "willen" ∷ "doen" ∷ "doet"
    ∷ "deed" ∷ "gedaan" ∷ "maken" ∷ "maakt" ∷ "wat" ∷ "welke" ∷ "welk" ∷ "wie" ∷ "waar" ∷ "wanneer"
    ∷ "waarom" ∷ "hoe" ∷ "hoeveel" ∷ "hoezo" ∷ "me" ∷ "zich" ∷ "elkaar" ∷ "iets" ∷ "niets" ∷ "alles"
    ∷ "iemand" ∷ "niemand" ∷ "nog" ∷ "meer" ∷ "veel" ∷ "weinig" ∷ "zeer" ∷ "heel" ∷ "erg" ∷ "wat"
    ∷ "zo" ∷ "te" ∷ "een's" ∷ "eens" ∷ "even" ∷ "gewoon" ∷ "graag" ∷ "misschien" ∷ "wellicht"
    ∷ "ongeveer" ∷ "circa" ∷ []

-- COMPOUND_SEED
abbrev pub compound_seed : Dict (List String)
compound_seed =
    ("drinkwaterzekerheid", "drinkwater" ∷ "zekerheid" ∷ [])
    ∷ ("drinkwatervoorziening", "drinkwater" ∷ "voorziening" ∷ [])
    ∷ ("drinkwaterbedrijven", "drinkwater" ∷ "bedrijven" ∷ [])
    ∷ ("drinkwaterbedrijf", "drinkwater" ∷ "bedrijf" ∷ [])
    ∷ ("drinkwaterproductie", "drinkwater" ∷ "productie" ∷ [])
    ∷ ("drinkwaterinfrastructuur", "drinkwater" ∷ "infrastructuur" ∷ [])
    ∷ ("drinkwaterbesluit", "drinkwater" ∷ "besluit" ∷ [])
    ∷ ("drinkwaterwet", "drinkwater" ∷ "wet" ∷ [])
    ∷ ("grondwater", "grond" ∷ "water" ∷ [])
    ∷ ("oppervlaktewater", "oppervlakte" ∷ "water" ∷ [])
    ∷ ("oppervlaktewaterlichamen", "oppervlakte" ∷ "water" ∷ "lichamen" ∷ [])
    ∷ ("zoetwater", "zoet" ∷ "water" ∷ [])
    ∷ ("zoetwaterbeschikbaarheid", "zoet" ∷ "water" ∷ "beschikbaarheid" ∷ [])
    ∷ ("waterbeschikbaarheid", "water" ∷ "beschikbaarheid" ∷ [])
    ∷ ("waterkwaliteit", "water" ∷ "kwaliteit" ∷ [])
    ∷ ("bronkwaliteit", "bron" ∷ "kwaliteit" ∷ [])
    ∷ ("waterprogramma", "water" ∷ "programma" ∷ [])
    ∷ ("waterlichamen", "water" ∷ "lichamen" ∷ [])
    ∷ ("waterschappen", "water" ∷ "schappen" ∷ [])
    ∷ ("klimaatscenario", "klimaat" ∷ "scenario" ∷ [])
    ∷ ("klimaatscenarios", "klimaat" ∷ "scenario" ∷ [])
    ∷ ("klimaatscenario's", "klimaat" ∷ "scenario" ∷ [])
    ∷ ("innamepunt", "inname" ∷ "punt" ∷ [])
    ∷ ("innamepunten", "inname" ∷ "punt" ∷ [])
    ∷ ("bodemdaling", "bodem" ∷ "daling" ∷ [])
    ∷ ("productieketen", "productie" ∷ "keten" ∷ [])
    ∷ ("toestandsbeoordeling", "toestand" ∷ "beoordeling" ∷ [])
    ∷ ("verziltingsklasse", "verzilting" ∷ "klasse" ∷ [])
    ∷ ("bevolkingsgroei", "bevolking" ∷ "groei" ∷ [])
    ∷ ("woningbouw", "woning" ∷ "bouw" ∷ [])
    ∷ ("datacenter", "data" ∷ "center" ∷ [])
    ∷ ("leveringszekerheid", "levering" ∷ "zekerheid" ∷ [])
    ∷ []

-- How far a token has been read by the pattern `[a-z0-9]+(?:'[a-z]+)?`.
pub data Mode : Type 0 where
  outside : Mode
  word tail : String → Mode

abbrev one : Char → String
one c = String.◌∷◌ c String.[]

abbrev starts_with_letter : String → Bool
starts_with_letter String.[] = false
starts_with_letter (String.◌∷◌ c s) = is_letter c

-- One character, with the text behind it; a finished token comes out.
read_char : Mode → Char → String → Mode × List String
read_char outside c rest = if is_letter c || is_digit c then (word (one c), []) else (outside, [])
read_char (word t) c rest =
    if is_letter c || is_digit c
    then (word (text_append t (one c)), [])
    else if eqb (code c) 39 && starts_with_letter rest
    then (tail (text_append t (one c)), [])
    else (outside, t ∷ [])
read_char (tail t) c rest =
    if is_letter c
    then (tail (text_append t (one c)), [])
    else if is_digit c
    then (word (one c), t ∷ [])
    else (outside, t ∷ [])

abbrev last_token : Mode → List String
last_token outside = []
last_token (word t) = t ∷ []
last_token (tail t) = t ∷ []

find_tokens : Mode → String → List String
unfolding read_char
find_tokens m String.[] = last_token m
find_tokens m (String.◌∷◌ c s) = let (m', found) = read_char m c s in found ++ find_tokens m' s

unfoldable pub raw_tokens : String → List String
unfolding find_tokens
raw_tokens text = map lower (find_tokens outside text)

abbrev pub is_content : String → Bool
is_content t = ltb 1 (chars t) && not (one_of t dutch_stopwords)

unfoldable pub content_tokens : String → List String
unfolding raw_tokens
content_tokens text = keep is_content (raw_tokens text)

-- A segmentation, or `none` where the word has none.
abbrev pub Parts : Type 0
Parts = Option (List String)

abbrev pub Memo : Type 0
Memo = Dict Parts

-- `if best is None or len(cand) > len(best): best = cand`
abbrev pub better : Parts → String → Parts → Parts
better best head none = best
better none head (some rest) = some (head ∷ rest)
better (some b) head (some rest) =
    if ltb (length b) (suc (length rest)) then some (head ∷ rest) else some b

-- `range(a, a + n)`
abbrev pub range_from : ℕ → ℕ → List ℕ
range_from a zero = []
range_from a (suc n) = a ∷ range_from (suc a) n

-- One round of the loop over `end`; `segment` is the recursive call, made on `s[end:]`.
pub try_end :
    (String → Memo → Parts × Memo) → List String → String → ℕ → Parts → Memo → Parts × Memo
try_end segment vocab s end best memo =
    if one_of (text_take end s) vocab
    then (let (rest, memo') = segment (text_drop end s) memo in
        (better best (text_take end s) rest, memo'))
    else (best, memo)

pub try_ends :
    (String → Memo → Parts × Memo) → List String → String → List ℕ → Parts → Memo → Parts × Memo
unfolding try_end
try_ends segment vocab s [] best memo = (best, memo)
try_ends segment vocab s (end ∷ ends) best memo =
    let (best', memo') = try_end segment vocab s end best memo in
    try_ends segment vocab s ends best' memo'

-- The recursion: `segment vocab min_part s memo`.
unfoldable pub best_segmentation : ℕ → List String → ℕ → String → Memo → Parts × Memo
unfolding try_ends
best_segmentation zero vocab min_part s memo = (none, memo)
best_segmentation (suc fuel) vocab min_part s memo = elim (s == "") [
  | true ↦ (some [], memo)
  | false ↦ elim (lookup s memo) [
    | some known ↦ (known, memo)
    | none ↦
        let (best, memo') =
          try_ends (best_segmentation fuel vocab min_part) vocab s
            (range_from min_part (suc (chars s) - min_part)) none memo in
        (best, insert s best memo')
  ]
]

abbrev two_or_more : Parts → List String
two_or_more none = []
two_or_more (some parts) = if leb 2 (length parts) then parts else []

unfoldable pub decompound : String → List String → ℕ → List String
unfolding best_segmentation
decompound token vocab min_part = elim (lookup token compound_seed) [
  | some parts ↦ parts
  | none ↦
      if ltb (chars token) (2 * min_part) || not (is_alpha token)
      then []
      else two_or_more (best_segmentation (suc (chars token)) vocab min_part token []).0
]

unfoldable pub expand_tokens : List String → List String → List String
unfolding decompound
expand_tokens [] vocab = []
expand_tokens (t ∷ tokens) vocab = (t ∷ decompound t vocab 4) ++ expand_tokens tokens vocab
