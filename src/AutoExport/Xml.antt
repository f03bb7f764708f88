-- ===== src/AutoExport/Xml.antt =====
-- app/src/electron/managers/AutoExportManager.ts: `escapeXml`, and a reader of escaped text that is
-- described apart from it.
use facenox.Base.{
  ℕ, ◌≡◌, refl, sym, ap, ◌∙◌, Bool, true, false, ◌||◌, ◌&&◌, [], ◌∷◌, ◌++◌, Option, none, some,
  ◌==◌, ==_iff, if◌then◌else◌, append_assoc, Bool-cases, inl, inr,
}
use facenox.Base.Text.{Text, codes, replace_all}

-- The five calls of `replace`, the first one first.
unfoldable pub escape_xml : Text → Text
escape_xml unsafe = replace_all b'\'' (codes "&apos;") (
    replace_all b'"' (codes "&quot;") (
      replace_all b'>' (codes "&gt;")
        (replace_all b'<' (codes "&lt;") (replace_all b'&' (codes "&amp;") unsafe))))

-- What a character becomes.
abbrev entity : ℕ → Text
entity c =
    if c == b'&'
    then codes "&amp;"
    else if c == b'<'
    then codes "&lt;"
    else if c == b'>'
    then codes "&gt;"
    else if c == b'"'
    then codes "&quot;"
    else if c == b'\''
    then codes "&apos;"
    else c ∷ []

abbrev entities : Text → Text
entities [] = []
entities (c ∷ s) = entity c ++ entities s

replace_all-append :
    (c : ℕ) (by s t : Text) → replace_all c by (s ++ t) ≡ replace_all c by s ++ replace_all c by t
replace_all-append c by [] t = refl
replace_all-append c by (x ∷ s) t =
    ap (◌++◌ (if x == c then by else x ∷ [])) (replace_all-append c by s t)
    ∙ sym (append_assoc (if x == c then by else x ∷ []) (replace_all c by s) (replace_all c by t))

escape_xml-append : (s t : Text) → escape_xml (s ++ t) ≡ escape_xml s ++ escape_xml t
unfolding escape_xml
escape_xml-append s t = simp (
  replace_all-append b'&' (codes "&amp;"),
  replace_all-append b'<' (codes "&lt;"),
  replace_all-append b'>' (codes "&gt;"),
  replace_all-append b'"' (codes "&quot;"),
  replace_all-append b'\'' (codes "&apos;"),
)

escape_xml-one : (c : ℕ) → escape_xml (c ∷ []) ≡ entity c
unfolding escape_xml
escape_xml-one c = elim (Bool-cases (c == b'&')) [
  | inl e ↦ rw ((==_iff c b'&').0 e) refl
  | inr e ↦ elim (Bool-cases (c == b'<')) [
    | inl f ↦ rw ((==_iff c b'<').0 f) refl
    | inr f ↦ elim (Bool-cases (c == b'>')) [
      | inl g ↦ rw ((==_iff c b'>').0 g) refl
      | inr g ↦ elim (Bool-cases (c == b'"')) [
        | inl h ↦ rw ((==_iff c b'"').0 h) refl
        | inr h ↦ elim (Bool-cases (c == b'\'')) [
          | inl i ↦ rw ((==_iff c b'\'').0 i) refl
          | inr i ↦ rw (e, f, g, h, i) refl
        ]
      ]
    ]
  ]
]

-- One replacement after another does what a look at each character does: the entities that an
-- earlier one has written are not escaped again.
escape_xml-entities : (s : Text) → escape_xml s ≡ entities s
escape_xml-entities [] = unfold escape_xml in refl
escape_xml-entities (c ∷ s) =
    escape_xml-append (c ∷ []) s
    ∙ (ap (λ (t : Text). t ++ escape_xml s) (escape_xml-one c)
        ∙ ap (◌++◌ (entity c)) (escape_xml-entities s))

abbrev same_text : Text → Text → Bool
same_text [] [] = true
same_text (a ∷ s) (b ∷ t) = a == b && same_text s t
same_text _ _ = false

-- The character that an entity stands for.
abbrev pub named_char : Text → Option ℕ
named_char name =
    if same_text name (codes "amp")
    then some b'&'
    else if same_text name (codes "lt")
    then some b'<'
    else if same_text name (codes "gt")
    then some b'>'
    else if same_text name (codes "quot")
    then some b'"'
    else if same_text name (codes "apos")
    then some b'\''
    else none

abbrev add_char : Option ℕ → Option Text → Option Text
add_char (some c) (some s) = some (c ∷ s)
add_char _ _ = none

abbrev is_markup : ℕ → Bool
is_markup c = c == b'<' || (c == b'>' || (c == b'"' || c == b'\''))

-- A reader of character data and of quoted attribute values: no markup, no bare ampersand, and the
-- five entities. In `some name` it stands inside an entity.
pub read_xml : Option Text → Text → Option Text
read_xml none [] = some []
read_xml (some name) [] = none
read_xml none (c ∷ s) =
    let inside = read_xml (some []) s in
    let plain = add_char (some c) (read_xml none s) in
    if c == b'&' then inside else if is_markup c then none else plain
read_xml (some name) (c ∷ s) =
    let ended = add_char (named_char name) (read_xml none s) in
    let more = read_xml (some (name ++ c ∷ [])) s in if c == b';' then ended else more

read_xml-entity :
    (c : ℕ) (rest : Text)
    → read_xml none (entity c ++ rest) ≡ add_char (some c) (read_xml none rest)
unfolding read_xml
read_xml-entity c rest = elim (Bool-cases (c == b'&')) [
  | inl e ↦ rw ((==_iff c b'&').0 e) refl
  | inr e ↦ elim (Bool-cases (c == b'<')) [
    | inl f ↦ rw ((==_iff c b'<').0 f) refl
    | inr f ↦ elim (Bool-cases (c == b'>')) [
      | inl g ↦ rw ((==_iff c b'>').0 g) refl
      | inr g ↦ elim (Bool-cases (c == b'"')) [
        | inl h ↦ rw ((==_iff c b'"').0 h) refl
        | inr h ↦ elim (Bool-cases (c == b'\'')) [
          | inl i ↦ rw ((==_iff c b'\'').0 i) refl
          | inr i ↦ rw (e, f, g, h, i) (rw (e, f, g, h, i) refl)
        ]
      ]
    ]
  ]
]

read_xml-entities : (s : Text) → read_xml none (entities s) ≡ some s
read_xml-entities [] = unfold read_xml in refl
read_xml-entities (c ∷ s) =
    read_xml-entity c (entities s) ∙ ap (add_char (some c)) (read_xml-entities s)

-- Any text is read back from its escaped form, in which no character is taken for markup.
pub read_xml-escape_xml : (s : Text) → read_xml none (escape_xml s) ≡ some s
read_xml-escape_xml s = ap (read_xml none) (escape_xml-entities s) ∙ read_xml-entities s
