-- ===== src/Tiers.antt =====
-- pkg/template/nstemplatetiers/nstemplatetier_generator.go: from the files of the tiers to the
-- TierTemplates and the NSTemplateTiers. A Go map is a list of entries; where the code ranges over one,
-- the order in which it visits the keys is a parameter.
pub mod Files
pub mod TierTemplates
pub mod NsTemplateTiers
pub mod Generate
pub mod FileLaws
pub mod Reuse
pub mod ParameterLaws
pub mod TemplateLaws
pub mod InitLaws
pub mod Sources
pub mod GenerateLaws
pub mod ReferenceLaws
pub mod Tests
