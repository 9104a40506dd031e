-- ===== src/Json/Ends.antt =====
-- Every text that the parser of src/tools/json.rs is given is parsed or refused: its calls and loops
-- take what they leave out of the input.
use rtp_mux.Prelude.{
  ℕ, zero, suc, ◌+◌, ◌*◌, ◌<◌, ◌≤◌, ◌≡◌, ◌≢◌, refl, true, false, Option, none, some, List, [], ◌∷◌,
  ok, err, and_then, length, arith,
}
use rtp_mux.Json.Types.{
  Json, Items, Members, null, bool, int, float, no_items, no_members, push, insert,
}
use rtp_mux.Json.Numbers.{parse_i64}
use rtp_mux.Json.Strings.{out_of_fuel, invalid_number, string}
use rtp_mux.Json.Scan.{skip_whitespace, scan_number, Scanned}
use rtp_mux.Json.Parser.{
  Text, Kind, kind_at, starts_number, member_key, number, numeric, value_of, value_arm, word_true,
  word_false, word_null, opens_object, opens_array, quotes, starts_true, starts_false, starts_null,
  other, value, members_loop, items_loop, finish, parse, Parsed,
}
use rtp_mux.Json.Fuel.{
  Within, within, refused, Within-and_then, Within-weaken, Within-if, length-skip_whitespace,
  string-Within,
}
use rtp_mux.Json.Shrinks.{
  length-scan_number, literal-Within, str_value-Within, object_start-Within, array_start-Within,
  after_element-Within, member_key-Within, Runs,
}

parsed-Within :
    {A F : Type 0} (n : ℕ) (o : Option A) (make : A → Json F) (rest : List ℕ)
    → length rest < n
    → Within n (elim o [ none ↦ err invalid_number | some x ↦ ok (make x, rest) ])
parsed-Within n none make rest h = refused λ x. cc
parsed-Within n (some x) make rest h = within h

module _ {F : Type 0} (text_of : Text F) where
  numeric-Within : (n : ℕ) (s : Scanned) → length s.rest < n → Within n (numeric text_of s)
  unfolding numeric
  numeric-Within n s h =
      Within-if n s.is_float (parsed-Within n (text_of.parse_f64 s.text) float s.rest h)
        (parsed-Within n (parse_i64 s.text) int s.rest h)

  number-Within :
      (bytes : List ℕ)
      → kind_at bytes ≡ starts_number
      → Within (length bytes) (number text_of bytes)
  unfolding number kind_at
  number-Within [] k = absurd (cc)
  number-Within (b ∷ bs) k =
      numeric-Within (suc (length bs)) (scan_number (b ∷ bs))
        (omega (arith, length-scan_number b bs k))

  value_arm-Within :
      (members items : List ℕ → Parsed F) (bytes : List ℕ) (k : Kind)
      → Runs members bytes
      → Runs items bytes
      → kind_at bytes ≡ k
      → Within (length bytes) (value_arm text_of members items bytes k)
  unfolding value_arm
  value_arm-Within members items bytes opens_object m i e = object_start-Within members bytes m
  value_arm-Within members items bytes opens_array m i e = array_start-Within items bytes i
  value_arm-Within members items bytes quotes m i e =
      str_value-Within (length bytes) (string bytes) (string-Within bytes)
  value_arm-Within members items bytes starts_true m i e =
      literal-Within word_true bytes (bool true) (omega arith)
  value_arm-Within members items bytes starts_false m i e =
      literal-Within word_false bytes (bool false) (omega arith)
  value_arm-Within members items bytes starts_null m i e =
      literal-Within word_null bytes null (omega arith)
  value_arm-Within members items bytes starts_number m i e = number-Within bytes e
  value_arm-Within members items bytes other m i e = refused λ x. cc

  mutual
    unfolding value value_of

    value-Within :
        (fuel : ℕ) (bytes : List ℕ)
        → 2 * length bytes < fuel
        → Within (length bytes) (value text_of fuel bytes)
    value-Within zero bytes h = absurd (omega arith)
    value-Within (suc fuel) bytes h =
        let token = skip_whitespace bytes in
        let shorter : length token ≤ length bytes = length-skip_whitespace bytes in
        Within-weaken (length token) (length bytes) _ shorter (
          value_arm-Within _ _ token (kind_at token)
            (λ left l.
              Within-weaken (length left) (length token) _ (omega arith)
                (members_loop-Within fuel no_members left (omega arith)))
            (λ left l.
              Within-weaken (length left) (length token) _ (omega arith)
                (items_loop-Within fuel no_items left (omega arith)))
            refl)

    members_loop-Within :
        (fuel : ℕ) (map : Members F) (bytes : List ℕ)
        → suc (2 * length bytes) < fuel
        → Within (length bytes) (members_loop text_of fuel map bytes)
    members_loop-Within zero map bytes h = absurd (omega arith)
    members_loop-Within (suc fuel) map bytes h =
        let token = skip_whitespace bytes in
        let shorter : length token ≤ length bytes = length-skip_whitespace bytes in
        Within-and_then (length token) (length bytes) (member_key token) _ (member_key-Within token)
          λ key rest l.
            Within-and_then (length rest) (length bytes) (value text_of fuel rest) _
              (value-Within fuel rest (omega arith))
              λ v left l'.
                let less : length (skip_whitespace left) ≤ length left =
                  length-skip_whitespace left in
                after_element-Within b'}' (length bytes) _ _ (skip_whitespace left) (omega arith)
                  λ more m.
                    Within-weaken (length more) (length bytes) _ (omega arith)
                      (members_loop-Within fuel (insert key v map) more (omega arith))

    items_loop-Within :
        (fuel : ℕ) (items : Items F) (bytes : List ℕ)
        → suc (2 * length bytes) < fuel
        → Within (length bytes) (items_loop text_of fuel items bytes)
    items_loop-Within zero items bytes h = absurd (omega arith)
    items_loop-Within (suc fuel) items bytes h =
        Within-and_then (length bytes) (length bytes) (value text_of fuel bytes) _
          (value-Within fuel bytes (omega arith))
          λ v left l.
            let less : length (skip_whitespace left) ≤ length left = length-skip_whitespace left in
            after_element-Within b']' (length bytes) _ _ (skip_whitespace left) (omega arith)
              λ more m.
                Within-weaken (length more) (length bytes) _ (omega arith)
                  (items_loop-Within fuel (push items v) more (omega arith))

  finish-ends : (v : Json F) (rest : List ℕ) → finish v rest ≢ err out_of_fuel
  unfolding finish
  finish-ends v [] = cc
  finish-ends v (b ∷ rest) = cc

  then-ends :
      (n : ℕ) (r : Parsed F)
      → Within n r
      → and_then r (λ (v, rest). finish v (skip_whitespace rest)) ≢ err out_of_fuel
  then-ends n _ (within {a} {rest} l) = finish-ends a (skip_whitespace rest)
  then-ends n _ (refused ne) = λ e. ne (cc)

  -- Every text is parsed or refused: the calls and loops of the parser end on any input, well formed
  -- or not, so that its model never runs out of fuel.
  pub parse-ends : (text : List ℕ) → parse text_of text ≢ err out_of_fuel
  unfolding parse
  parse-ends text =
      then-ends (length text) _ (value-Within (2 * length text + 1) text (omega arith))
