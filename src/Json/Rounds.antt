-- ===== src/Json/Rounds.antt =====
-- The rounds of the loops of src/tools/json.rs over elements and members.
use rtp_mux.Prelude.{ℕ, suc, ◌≡◌, refl, ap, ◌∙◌, List, [], ◌∷◌, ◌++◌, ok}
use mathlib.Core.List.{append_assoc}
use rtp_mux.Json.Types.{Json, Items, Members, array, object, push, insert}
use rtp_mux.Json.Scan.{IsBlank, is_ascii_whitespace, skip_whitespace}
use rtp_mux.Json.Strings.{expect}
use rtp_mux.Json.Strings.Spelling.{Quoted, quoted}
use rtp_mux.Json.Strings.Escapes.{string-Quoted}
use rtp_mux.Json.Parser.{Text, after_element, member_key, value, members_loop, items_loop}
use rtp_mux.Json.Tokens.{StartsValue}
use rtp_mux.Json.Openings.{skip_whitespace-byte, value-blank}

member_key-Quoted :
    (k key a rest : List ℕ)
    → Quoted k key
    → IsBlank a
    → member_key (key ++ (a ++ b':' ∷ rest)) ≡ ok (k, rest)
unfolding member_key is_ascii_whitespace expect
member_key-Quoted k key a rest t h =
    rw
      (
        member_key,
        string-Quoted k key (a ++ b':' ∷ rest) t,
        skip_whitespace-byte a rest b':' h refl,
      )
      refl

pub Quoted-skip : (k key rest : List ℕ) → Quoted k key → skip_whitespace (key ++ rest) ≡ key ++ rest
unfolding is_ascii_whitespace skip_whitespace
Quoted-skip _ _ rest (quoted h) = refl

module _ {F : Type 0} (text_of : Text F) where
  -- One round of a loop over elements.
  items_loop-round :
      (fuel : ℕ) (acc : Items F) (v : Json F) (bytes left rest : List ℕ)
      → value text_of fuel (bytes ++ left) ≡ ok (v, left)
      → items_loop text_of (suc fuel) acc (bytes ++ left)
        ≡ after_element b']'
            (items_loop text_of fuel (push acc v))
            (array (push acc v))
            (skip_whitespace left)
  unfolding value
  items_loop-round fuel acc v bytes left rest e = rw (items_loop, e) refl

  pub items_loop-last :
      (fuel : ℕ) (acc : Items F) (v : Json F) (bytes b rest : List ℕ)
      → IsBlank b
      → value text_of fuel (bytes ++ (b ++ b']' ∷ rest)) ≡ ok (v, b ++ b']' ∷ rest)
      → items_loop text_of (suc fuel) acc ((bytes ++ (b ++ b']' ∷ [])) ++ rest)
        ≡ ok (array (push acc v), rest)
  unfolding after_element is_ascii_whitespace
  items_loop-last fuel acc v bytes b rest h e =
      rw (append_assoc bytes (b ++ b']' ∷ []) rest, append_assoc b (b']' ∷ []) rest)
        (items_loop-round fuel acc v bytes (b ++ b']' ∷ rest) rest e
          ∙ ap (after_element b']' (items_loop text_of fuel (push acc v)) (array (push acc v)))
              (skip_whitespace-byte b rest b']' h refl))

  pub items_loop-next :
      (fuel : ℕ) (acc : Items F) (v : Json F) (bytes b left rest : List ℕ)
      → IsBlank b
      → value text_of fuel (bytes ++ (b ++ b',' ∷ (left ++ rest)))
        ≡ ok (v, b ++ b',' ∷ (left ++ rest))
      → items_loop text_of (suc fuel) acc ((bytes ++ (b ++ b',' ∷ left)) ++ rest)
        ≡ items_loop text_of fuel (push acc v) (left ++ rest)
  unfolding after_element is_ascii_whitespace
  items_loop-next fuel acc v bytes b left rest h e =
      rw (append_assoc bytes (b ++ b',' ∷ left) rest, append_assoc b (b',' ∷ left) rest)
        (items_loop-round fuel acc v bytes (b ++ b',' ∷ (left ++ rest)) rest e
          ∙ ap (after_element b']' (items_loop text_of fuel (push acc v)) (array (push acc v)))
              (skip_whitespace-byte b (left ++ rest) b',' h refl))

  members_loop-round :
      (fuel : ℕ) (map : Members F) (v : Json F) (k key a b bytes left : List ℕ)
      → Quoted k key
      → IsBlank a
      → IsBlank b
      → StartsValue bytes
      → value text_of fuel (bytes ++ left) ≡ ok (v, left)
      → members_loop text_of (suc fuel) map (key ++ (a ++ b':' ∷ (b ++ (bytes ++ left))))
        ≡ after_element b'}'
            (members_loop text_of fuel (insert k v map))
            (object (insert k v map))
            (skip_whitespace left)
  unfolding value
  members_loop-round fuel map v k key a b bytes left t ha hb s e =
      rw
        (
          members_loop,
          Quoted-skip k key (a ++ b':' ∷ (b ++ (bytes ++ left))) t,
          member_key-Quoted k key a (b ++ (bytes ++ left)) t ha,
          value-blank text_of fuel b bytes left hb s,
          e,
        )
        refl

  pub members_loop-last :
      (fuel : ℕ) (map : Members F) (v : Json F) (k key a b bytes c rest : List ℕ)
      → Quoted k key
      → IsBlank a
      → IsBlank b
      → IsBlank c
      → StartsValue bytes
      → value text_of fuel (bytes ++ (c ++ b'}' ∷ rest)) ≡ ok (v, c ++ b'}' ∷ rest)
      → members_loop text_of
          (suc fuel)
          map
          ((key ++ (a ++ b':' ∷ (b ++ (bytes ++ (c ++ b'}' ∷ []))))) ++ rest)
        ≡ ok (object (insert k v map), rest)
  unfolding after_element is_ascii_whitespace
  members_loop-last fuel map v k key a b bytes c rest t ha hb hc s e =
      rw
        (
          append_assoc (key) (a ++ b':' ∷ (b ++ (bytes ++ (c ++ b'}' ∷ [])))) rest,
          append_assoc a (b':' ∷ (b ++ (bytes ++ (c ++ b'}' ∷ [])))) rest,
          append_assoc b (bytes ++ (c ++ b'}' ∷ [])) rest,
          append_assoc bytes (c ++ b'}' ∷ []) rest,
          append_assoc c (b'}' ∷ []) rest,
        )
        (members_loop-round fuel map v k key a b bytes (c ++ b'}' ∷ rest) t ha hb s e
          ∙ ap
              (after_element b'}' (members_loop text_of fuel (insert k v map))
                (object (insert k v map)))
              (skip_whitespace-byte c rest b'}' hc refl))

  pub members_loop-next :
      (fuel : ℕ) (map : Members F) (v : Json F) (k key a b bytes c more rest : List ℕ)
      → Quoted k key
      → IsBlank a
      → IsBlank b
      → IsBlank c
      → StartsValue bytes
      → value text_of fuel (bytes ++ (c ++ b',' ∷ (more ++ rest)))
        ≡ ok (v, c ++ b',' ∷ (more ++ rest))
      → members_loop text_of
          (suc fuel)
          map
          ((key ++ (a ++ b':' ∷ (b ++ (bytes ++ (c ++ b',' ∷ more))))) ++ rest)
        ≡ members_loop text_of fuel (insert k v map) (more ++ rest)
  unfolding after_element is_ascii_whitespace
  members_loop-next fuel map v k key a b bytes c more rest t ha hb hc s e =
      rw
        (
          append_assoc (key) (a ++ b':' ∷ (b ++ (bytes ++ (c ++ b',' ∷ more)))) rest,
          append_assoc a (b':' ∷ (b ++ (bytes ++ (c ++ b',' ∷ more)))) rest,
          append_assoc b (bytes ++ (c ++ b',' ∷ more)) rest,
          append_assoc bytes (c ++ b',' ∷ more) rest,
          append_assoc c (b',' ∷ more) rest,
        )
        (members_loop-round fuel map v k key a b bytes (c ++ b',' ∷ (more ++ rest)) t ha hb s e
          ∙ ap
              (after_element b'}' (members_loop text_of fuel (insert k v map))
                (object (insert k v map)))
              (skip_whitespace-byte c (more ++ rest) b',' hc refl))
