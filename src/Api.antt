-- ===== src/Api.antt =====
-- api/v1alpha1/heraldconfig_types.go: the HeraldConfig resource.
pub mod Spec
pub mod Status
