-- ===== src/Agents/CurrencyGuard.antt =====
-- agents/currency_guard.py: the currency of a new record or of an edit, and the texts in which the
-- guards look. What it takes from Python's tables of Unicode is a parameter.
pub mod Words
use Prim.Native.Char.{Char, code}
use tresqu_api.Common.{
  ℕ, zero, suc, ◌-◌, Bool, false, not, ◌&&◌, ◌||◌, Option, none, some, List, [], ◌∷◌, ◌++◌, String,
  any, has_part, length, leb, lower, strip, str_eq, upper, ◌==◌, if◌then◌else◌,
}

-- `str.lower`, `unicodedata.normalize("NFD", ...)` less the marks, and `str.isalnum`
pub record Unicode : Type 0 where
  pub lower_case : String → String
  pub without_marks : String → String
  pub is_alnum : String → Bool

-- `_CURRENCY_ALIASES.get(code, ())`
unfoldable pub currency_aliases : String → List String
currency_aliases code =
    if str_eq code "USD"
    then "dolar" ∷ "dolares" ∷ "usd" ∷ "us$" ∷ "u$s" ∷ "usd$" ∷ "dls" ∷ []
    else if str_eq code "EUR"
    then "euro" ∷ "euros" ∷ "€" ∷ []
    else if str_eq code "COP"
    then "peso colombiano" ∷ "pesos colombianos" ∷ "cop$" ∷ []
    else if str_eq code "MXN"
    then "peso mexicano" ∷ "pesos mexicanos" ∷ "mxp" ∷ []
    else if str_eq code "ARS"
    then "peso argentino" ∷ "pesos argentinos" ∷ []
    else if str_eq code "CLP"
    then "peso chileno" ∷ "pesos chilenos" ∷ []
    else if str_eq code "UYU"
    then "peso uruguayo" ∷ "pesos uruguayos" ∷ []
    else if str_eq code "DOP"
    then "peso dominicano" ∷ "pesos dominicanos" ∷ []
    else if str_eq code "CUP"
    then "peso cubano" ∷ "pesos cubanos" ∷ []
    else if str_eq code "PEN"
    then "sol" ∷ "soles" ∷ "sol peruano" ∷ "soles peruanos" ∷ []
    else if str_eq code "BRL"
    then "real" ∷ "reales" ∷ "reais" ∷ "real brasileno" ∷ "reales brasilenos" ∷ []
    else if str_eq code "GBP"
    then "libra" ∷ "libras" ∷ "libra esterlina" ∷ "£" ∷ []
    else if str_eq code "VES"
    then "bolivar" ∷ "bolivares" ∷ []
    else if str_eq code "PYG"
    then "guarani" ∷ "guaranies" ∷ []
    else if str_eq code "BOB"
    then "boliviano" ∷ "bolivianos" ∷ []
    else if str_eq code "CRC"
    then "colon" ∷ "colones" ∷ []
    else if str_eq code "GTQ"
    then "quetzal" ∷ "quetzales" ∷ []
    else if str_eq code "JPY"
    then "yen" ∷ "yenes" ∷ "¥" ∷ []
    else if str_eq code "CAD"
    then "dolar canadiense" ∷ "dolares canadienses" ∷ []
    else if str_eq code "AUD"
    then "dolar australiano" ∷ "dolares australianos" ∷ []
    else if str_eq code "CHF"
    then "franco suizo" ∷ "francos suizos" ∷ []
    else []

-- `[0-9a-z]`
unfoldable pub is_word_char : Char → Bool
is_word_char c = leb b'0' (code c) && leb (code c) b'9' || leb b'a' (code c) && leb (code c) b'z'

-- `(?![0-9a-z])` at the start of the rest
unfoldable pub starts_in_word : String → Bool
unfolding is_word_char
starts_in_word String.[] = false
starts_in_word (String.◌∷◌ c s) = is_word_char c

unfoldable pub match_word : String → String → Bool
unfolding starts_in_word
match_word String.[] text = not (starts_in_word text)
match_word (String.◌∷◌ t token) String.[] = false
match_word (String.◌∷◌ t token) (String.◌∷◌ c text) = code t == code c && match_word token text

-- The search for a word, where the flag says whether a character of a word stands before the text.
unfoldable pub search_word : Bool → String → String → Bool
unfolding match_word is_word_char
search_word after token String.[] = not after && match_word token ""
search_word after token (String.◌∷◌ c text) =
    not after && match_word token (String.◌∷◌ c text) || search_word (is_word_char c) token text

-- `code = (requested or "").strip().upper()`
unfoldable pub requested_code : Option String → String
requested_code none = ""
requested_code (some requested) = upper (strip requested)

module _ (unicode : Unicode) where
  unfoldable pub normalize : String → String
  normalize text = unicode.without_marks (unicode.lower_case text)

  unfoldable pub mentions_token : String → String → Bool
  unfolding search_word
  mentions_token normalized_text token =
      let normalized_token = normalize token in
      if str_eq normalized_token ""
      then false
      else if unicode.is_alnum normalized_token
      then search_word false normalized_token normalized_text
      else has_part normalized_token normalized_text

  unfoldable pub mentions_currency : String → String → Bool
  unfolding mentions_token
  mentions_currency code text =
      let upper_code = upper (strip code) in
      if str_eq text "" || str_eq code ""
      then false
      else any (mentions_token (normalize text)) (upper_code ∷ currency_aliases upper_code)

  unfoldable pub resolve_currency : Option String → String → List String → String
  unfolding mentions_currency
  resolve_currency requested user_default context_texts =
      let code = requested_code requested in
      if str_eq code ""
      then ""
      else if str_eq code (upper (strip user_default))
      then code
      else if any (mentions_currency code) context_texts
      then code
      else ""

  unfoldable pub mentioned_currency : Option String → List String → String
  unfolding mentions_currency
  mentioned_currency requested context_texts =
      let code = requested_code requested in
      if str_eq code "" then "" else if any (mentions_currency code) context_texts then code else ""

-- A message of the history: a dict, or an object, of the class `HumanMessage` or another. A content
-- that is not a text is `none`.
pub data Message : Type 0 where
  dict_message : (role : String) (content : Option String) → Message
  human_message : (content : Option String) → Message
  other_message : (content : Option String) → Message

-- `isinstance(content, str) and content.strip()`
pub put_text : Option String → List String → List String
put_text none texts = texts
put_text (some content) texts = if str_eq (strip content) "" then texts else content ∷ texts

pub content_of : Message → Option String
content_of (dict_message role content) = content
content_of (human_message content) = content
content_of (other_message content) = content

unfoldable pub user_content : Message → Option String
user_content (dict_message role content) = if str_eq role "user" then content else none
user_content (human_message content) = content
user_content (other_message content) = none

drop : ℕ → List Message → List Message
drop zero messages = messages
drop (suc n) [] = []
drop (suc n) (m ∷ messages) = drop n messages

-- `list(history or [])[-limit:]`, which is the whole list for 0
last_messages : ℕ → List Message → List Message
unfolding drop
last_messages limit history = if limit == 0 then history else drop (length history - limit) history

collect_texts : (Message → Option String) → List Message → List String
collect_texts text_of [] = []
collect_texts text_of (m ∷ messages) = put_text (text_of m) (collect_texts text_of messages)

-- `if user_message: texts.append(user_message)`
put_message : Option String → List String
put_message none = []
put_message (some message) = if str_eq message "" then [] else message ∷ []

pub conversation_texts : Option String → List Message → ℕ → List String
unfolding last_messages collect_texts put_message
conversation_texts user_message history limit =
    collect_texts content_of (last_messages limit history) ++ put_message user_message

unfoldable pub user_texts : Option String → List Message → List String
unfolding collect_texts put_message
user_texts user_message history = collect_texts user_content history ++ put_message user_message

unfoldable pub later_or_kept : Option String → Option String → Option String
later_or_kept (some later) content = some later
later_or_kept none none = none
later_or_kept none (some content) = if str_eq (strip content) "" then none else some content

-- The search goes from the last message to the first.
unfoldable pub previous_user_text : List Message → Option String
unfolding later_or_kept
previous_user_text [] = none
previous_user_text (m ∷ history) = later_or_kept (previous_user_text history) (user_content m)
