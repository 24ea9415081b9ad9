-- ===== src/Commons/Text.antt =====
-- How JavaScript prints a value: in `join`, and in a template literal.
use velo_external_db.Base.{ℕ, String, true, false, ◌&◌, decimal}
use velo_external_db.Commons.Values.{
  ℤ, pos, negsuc, Value, undefined, null, bool, num, frac, str, date, arr, obj, Items, nil, cons,
}
use velo_external_db.Commons.Runtime.{Runtime}

abbrev pub int_text : ℤ → String
int_text (pos n) = decimal n
int_text (negsuc n) = "-" & decimal (ℕ.suc n)

module _ (r : Runtime) where
  -- an element of an array, in `join`; a nested array is joined by commas
  unfoldable mutual
    pub text_of : Value → String
    text_of undefined = ""
    text_of null = ""
    text_of (bool true) = "true"
    text_of (bool false) = "false"
    text_of (num n) = int_text n
    text_of (frac t) = t
    text_of (str s) = s
    text_of (date t) = r.date_text t
    text_of (arr nil) = ""
    text_of (arr (cons v vs)) = text_of v & more_text vs
    text_of (obj fs) = "[object Object]"

    pub more_text : Items → String
    more_text nil = ""
    more_text (cons v vs) = "," & text_of v & more_text vs

  -- `${value}`
  unfoldable pub template_text : Value → String
  unfolding text_of
  template_text undefined = "undefined"
  template_text null = "null"
  template_text v = text_of v
