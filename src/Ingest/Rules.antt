-- ===== src/Ingest/Rules.antt =====
-- ingest/filter.py: the default rules.
use keyhole_sdk.Base.{String, List, [], ◌∷◌}

abbrev pub default_excludes : List String
default_excludes =
    ".git" ∷ ".git/**" ∷ ".hg" ∷ ".hg/**" ∷ ".svn" ∷ ".svn/**" ∷ ".env" ∷ ".env.*" ∷ "*.pem"
    ∷ "*.key" ∷ "*.p12" ∷ "*.pfx" ∷ "*.jks" ∷ "*.keystore" ∷ "venv/**" ∷ ".venv/**" ∷ "env/**"
    ∷ ".tox/**" ∷ ".nox/**" ∷ "node_modules/**" ∷ "bower_components/**" ∷ "__pycache__/**" ∷ "*.pyc"
    ∷ "*.pyo" ∷ ".eggs/**" ∷ "*.egg-info/**" ∷ "build/**" ∷ "dist/**" ∷ "out/**" ∷ "target/**"
    ∷ "bin/**" ∷ ".idea/**" ∷ ".vscode/**" ∷ "*.swp" ∷ "*.swo" ∷ "*~" ∷ ".DS_Store" ∷ "Thumbs.db"
    ∷ ".coverage" ∷ "htmlcov/**" ∷ ".pytest_cache/**" ∷ ".mypy_cache/**" ∷ ".ruff_cache/**"
    ∷ "*.iso" ∷ "*.dmg" ∷ "*.tar.gz" ∷ "*.tar.bz2" ∷ "*.zip" ∷ "*.rar" ∷ "*.7z" ∷ "*.jar" ∷ "*.war"
    ∷ "*.ear" ∷ "*.whl" ∷ ".docker/**" ∷ []

abbrev pub default_includes : List String
default_includes =
    "*.py" ∷ "*.js" ∷ "*.ts" ∷ "*.jsx" ∷ "*.tsx" ∷ "*.java" ∷ "*.go" ∷ "*.rs" ∷ "*.rb" ∷ "*.c"
    ∷ "*.cpp" ∷ "*.h" ∷ "*.hpp" ∷ "*.cs" ∷ "*.swift" ∷ "*.kt" ∷ "*.scala" ∷ "*.sh" ∷ "*.bash"
    ∷ "*.zsh" ∷ "*.sql" ∷ "*.html" ∷ "*.css" ∷ "*.scss" ∷ "*.less" ∷ "*.vue" ∷ "*.svelte" ∷ "*.md"
    ∷ "*.rst" ∷ "*.txt" ∷ "*.adoc" ∷ "*.json" ∷ "*.yaml" ∷ "*.yml" ∷ "*.toml" ∷ "*.cfg" ∷ "*.ini"
    ∷ "*.xml" ∷ "*.gradle" ∷ "*.properties" ∷ "Makefile" ∷ "Dockerfile" ∷ "docker-compose*.yml"
    ∷ "docker-compose*.yaml" ∷ "Jenkinsfile" ∷ "Vagrantfile" ∷ "Procfile" ∷ ".github/**"
    ∷ ".gitlab-ci.yml" ∷ "*.lock" ∷ "package-lock.json" ∷ "yarn.lock" ∷ "Pipfile.lock"
    ∷ "poetry.lock" ∷ "Cargo.lock" ∷ "go.sum" ∷ []
