-- ===== src/Inventory/HostName.antt =====
-- app/inventory/validation.py: the names that `_HOSTNAME` matches.
use insatomcat_webui.Base.{
  ℕ, String, Bool, true, false, ◌&&◌, ◌||◌, [], ◌∷◌, ◌=?◌, leb, if◌then◌else◌, length, Text, codes,
}

-- What `[a-z0-9]` matches under `IGNORECASE`: beside the ASCII letters and digits the four letters
-- İ, ı, ſ and the Kelvin sign.
abbrev pub is_alnum : ℕ → Bool
is_alnum c =
    (leb b'0' c && leb c b'9')
    || (leb b'a' c && leb c b'z')
    || (leb b'A' c && leb c b'Z')
    || (c =? 304)
    || (c =? 305)
    || (c =? 383)
    || (c =? 8490)

-- all of them alphanumeric or dashes, the last one alphanumeric
inner : Text → Bool
inner [] = true
inner (c ∷ []) = is_alnum c
inner (c ∷ d ∷ s) = (is_alnum c || (c =? b'-')) && inner (d ∷ s)

abbrev is_label : Text → Bool
is_label [] = false
is_label (c ∷ s) = is_alnum c && leb (length s) 62 && inner s

-- `$` matches in front of a last newline too.
drop_newline : Text → Text
drop_newline [] = []
drop_newline (c ∷ []) = if c =? 10 then [] else c ∷ []
drop_newline (c ∷ d ∷ s) = c ∷ drop_newline (d ∷ s)

-- `_HOSTNAME.match`
unfoldable pub is_hostname : String → Bool
unfolding inner drop_newline
is_hostname name = is_label (drop_newline (codes name))
