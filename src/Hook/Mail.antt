-- ===== src/Hook/Mail.antt =====
-- src/hooks/index.js: `sendEmail`, its attachments and the receivers of its mails.
pub mod Laws
use text.Mathlib.Text.{find?}
use schulcloud.Base.{
  ℕ, ◌+◌, String, Option, none, some, List, [], ◌∷◌, ◌++◌, Bool, true, false, not, ◌&&◌, ◌||◌,
  if◌then◌else◌, truthy, leb, includes, filter, is_some, Result, ok, err, plain_error, bad_request,
  ◌>>=◌, ◌>>◌, throw_if,
}

pub record Attachment : Type 0 where
  pub mimetype : String
  pub size : ℕ

abbrev pub contains : String → String → Bool
contains text part = is_some (find? text part)

unfoldable pub allowed_type : Attachment → Bool
allowed_type a =
    contains a.mimetype "image/"
    || contains a.mimetype "video/"
    || contains a.mimetype "application/msword"
    || contains a.mimetype "application/pdf"

-- The `forEach` of `validatedAttachments`; `limit` is the configured maximum of bytes, and
-- `total` the size of the attachments before.
unfoldable pub validated_from : ℕ → ℕ → List Attachment → Result (Unit {0})
validated_from limit total [] = ok tt
validated_from limit total (a ∷ rest) = do
  throw_if (not (allowed_type a)) plain_error
  throw_if (leb limit (total + a.size)) bad_request
  validated_from limit (total + a.size) rest

unfoldable pub validated_attachments : ℕ → List Attachment → Result (Unit {0})
validated_attachments limit attachments = validated_from limit 0 attachments

-- What a promise of `sendEmail` brings: a page of users, or one user.
pub data Found : Type 0 where
  page : List String → Found
  single : Option String → Found

abbrev pub emails_of : List Found → List String
emails_of [] = []
emails_of (page emails ∷ rest) = emails ++ emails_of rest
emails_of (single none ∷ rest) = emails_of rest
emails_of (single (some email) ∷ rest) =
    if truthy (some email) then email ∷ emails_of rest else emails_of rest

-- `_.uniq` keeps the first of equal elements.
unfoldable pub uniq_from : List String → List String → List String
uniq_from seen [] = []
uniq_from seen (x ∷ xs) =
    let fresh = x ∷ uniq_from (x ∷ seen) xs in
    let known = uniq_from seen xs in if includes seen x then known else fresh

unfoldable pub uniq : List String → List String
uniq xs = uniq_from [] xs

pub record MailData : Type 0 where
  pub emails : List String
  pub text : Option String
  pub html : Option String
  pub attachments : List Attachment

-- The receivers of `sendEmail`, one mail to each. `is_email` is the regular expression of the
-- code, `found` what the services answer for the roles and user ids.
unfoldable pub send_email :
    (limit : ℕ) (is_email : String → Bool) → List Found → MailData → Result (List String)
send_email limit is_email found maildata = do
  validated_attachments limit maildata.attachments
  ok (
      if truthy maildata.text || truthy maildata.html
      then uniq (filter is_email maildata.emails ++ emails_of found)
      else [])
