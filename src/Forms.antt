-- ===== src/Forms.antt =====
-- The forms: app/shared/components/dph/schema-form.component.ts and
-- app/core/forms/server-error-mapper.service.ts.
pub mod Schema
pub mod SchemaForm
pub mod ServerErrors
