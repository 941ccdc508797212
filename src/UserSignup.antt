-- ===== src/UserSignup.antt =====
-- pkg/usersignup/usersignup.go: names that comply with DNS, made of user names. A text is the list of
-- its code points; from the first replacement on all are ASCII, so that `len` counts them.
pub mod Text
pub mod Username
pub mod Identifier
pub mod NameText
pub mod NameLaws
pub mod LengthLaws
pub mod IdentifierLaws
pub mod Tests
